-- ===== src/Saved/Connections/Secrets.antt =====
-- The secrets of a saved connection.
use nats_explorer.Prelude.{Bool, true, false, Option, none, some, ◌≡◌, refl, ◌∙◌}
use nats_explorer.Messages.{or_default}
use nats_explorer.Saved.Connections.{
  AuthMethod, none_needed, userpass, nkey, jwt, SavedConnection, same_method, when, ssh_config,
  system_account_config, to_connection_config,
}

-- Without the credentials of other authentication methods than the chosen one.
abbrev pub own_credentials : SavedConnection → SavedConnection
own_credentials s = record s {
  token = when (same_method s.auth_method AuthMethod.token) s.token;
  user = when (same_method s.auth_method userpass) s.user;
  pass = when (same_method s.auth_method userpass) s.pass;
  nkey_seed = when (same_method s.auth_method nkey) s.nkey_seed;
  creds = when (same_method s.auth_method jwt) s.creds;
}

-- Without the TLS options where there is no TLS.
abbrev pub own_tls : SavedConnection → SavedConnection
own_tls s = record s {
  tls_ca = when (or_default false s.tls) s.tls_ca;
  tls_cert = when (or_default false s.tls) s.tls_cert;
  tls_key = when (or_default false s.tls) s.tls_key;
  tls_insecure = when (or_default false s.tls) s.tls_insecure;
  tls_first = when (or_default false s.tls) s.tls_first;
}

-- Without the system account's credentials for other methods than its own.
abbrev pub own_account : SavedConnection → SavedConnection
own_account s = record s {
  sys_token =
      when (same_method (or_default none_needed s.sys_auth_method) AuthMethod.token) s.sys_token;
  sys_user = when (same_method (or_default none_needed s.sys_auth_method) userpass) s.sys_user;
  sys_pass = when (same_method (or_default none_needed s.sys_auth_method) userpass) s.sys_pass;
  sys_nkey_seed =
      when (same_method (or_default none_needed s.sys_auth_method) nkey) s.sys_nkey_seed;
  sys_creds = when (same_method (or_default none_needed s.sys_auth_method) jwt) s.sys_creds;
}

-- Without the options of a bastion that is not used.
abbrev pub own_bastion : SavedConnection → SavedConnection
own_bastion s = record s {
  ssh_host = when (or_default false s.ssh_enabled) s.ssh_host;
  ssh_port = when (or_default false s.ssh_enabled) s.ssh_port;
  ssh_user = when (or_default false s.ssh_enabled) s.ssh_user;
  ssh_password = when (or_default false s.ssh_enabled) s.ssh_password;
  ssh_key = when (or_default false s.ssh_enabled) s.ssh_key;
  ssh_passphrase = when (or_default false s.ssh_enabled) s.ssh_passphrase;
  ssh_host_key = when (or_default false s.ssh_enabled) s.ssh_host_key;
}

abbrev pub scrubbed : SavedConnection → SavedConnection
scrubbed s = own_credentials (own_tls (own_account (own_bastion s)))

credentials_for :
    (m : AuthMethod) (s : SavedConnection)
    → to_connection_config (own_credentials (record s { auth_method = m }))
      ≡ to_connection_config (record s { auth_method = m })
unfolding to_connection_config
credentials_for none_needed s = refl
credentials_for AuthMethod.token s = refl
credentials_for userpass s = refl
credentials_for nkey s = refl
credentials_for jwt s = refl

tls_for :
    (tls : Option Bool) (s : SavedConnection)
    → to_connection_config (own_tls (record s { tls = tls }))
      ≡ to_connection_config (record s { tls = tls })
unfolding to_connection_config
tls_for none s = refl
tls_for (some true) s = refl
tls_for (some false) s = refl

account_for :
    (m : Option AuthMethod) (s : SavedConnection)
    → to_connection_config (own_account (record s { sys_auth_method = m }))
      ≡ to_connection_config (record s { sys_auth_method = m })
unfolding to_connection_config system_account_config
account_for none s = refl
account_for (some none_needed) s = refl
account_for (some AuthMethod.token) s = refl
account_for (some userpass) s = refl
account_for (some nkey) s = refl
account_for (some jwt) s = refl

bastion_for :
    (enabled : Option Bool) (s : SavedConnection)
    → to_connection_config (own_bastion (record s { ssh_enabled = enabled }))
      ≡ to_connection_config (record s { ssh_enabled = enabled })
unfolding to_connection_config ssh_config
bastion_for none s = refl
bastion_for (some true) s = refl
bastion_for (some false) s = refl

-- What connecting sends of a saved connection is the same without the credentials of the authentication
-- methods that are not chosen (the connection's and the system account's), the TLS options of a connection
-- without TLS and the options of a bastion that is switched off: none of them is sent.
pub to_connection_config-scrubbed :
    (saved : SavedConnection) → to_connection_config (scrubbed saved) ≡ to_connection_config saved
to_connection_config-scrubbed s =
    credentials_for s.auth_method (own_tls (own_account (own_bastion s)))
    ∙ tls_for s.tls (own_account (own_bastion s))
    ∙ account_for s.sys_auth_method (own_bastion s)
    ∙ bastion_for s.ssh_enabled s
