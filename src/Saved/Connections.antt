-- ===== src/Saved/Connections.antt =====
-- client/src/lib/savedConnections.ts: saved connections and what is sent to connect. An option that is not
-- set and one that is false, empty or zero are told apart only where the source does.
pub mod Secrets
pub mod Topics
use nats_explorer.Prelude.{
  ℕ, Text, codes, text_beq, List, [], ◌∷◌, ◌++◌, map, Bool, true, false, not, ◌&&◌, Option, none,
  some, ◌==◌, text_eq, any, if◌then◌else◌, nat_beq, drop, starts_with, join_with,
}
use nats_explorer.Prelude.Trim.{trim, some_text, or_none}
use nats_explorer.Messages.{or_default, decimal}
use nats_explorer.Subjects.Match.{is_empty}

pub data AuthMethod : Type 0 where
  none_needed token userpass nkey jwt : AuthMethod

pub data SystemTopicKey : Type 0 where
  sys js kv srv : SystemTopicKey

pub record SavedConnection : Type 0 where
  pub id : Text
  pub name : Text
  pub servers : List Text
  pub auth_method : AuthMethod
  pub token : Option Text
  pub user : Option Text
  pub pass : Option Text
  pub nkey_seed : Option Text
  pub creds : Option Text
  pub tls : Option Bool
  pub tls_ca : Option Text
  pub tls_cert : Option Text
  pub tls_key : Option Text
  pub tls_insecure : Option Bool
  pub tls_first : Option Bool
  pub subscriptions : List Text
  pub sys_topics : SystemTopicKey → Option Bool
  pub auto_connect : Option Bool
  pub monitoring_url : Option Text
  pub monitoring_port : Option ℕ
  pub js_domain : Option Text
  pub js_api_prefix : Option Text
  pub sys_auth_method : Option AuthMethod
  pub sys_token : Option Text
  pub sys_user : Option Text
  pub sys_pass : Option Text
  pub sys_nkey_seed : Option Text
  pub sys_creds : Option Text
  pub ssh_enabled : Option Bool
  pub ssh_host : Option Text
  pub ssh_port : Option ℕ
  pub ssh_user : Option Text
  pub ssh_password : Option Text
  pub ssh_key : Option Text
  pub ssh_passphrase : Option Text
  pub ssh_host_key : Option Text

pub record SshConfig : Type 0 where
  pub host : Text
  pub port : Option ℕ
  pub user : Text
  pub password : Option Text
  pub private_key : Option Text
  pub passphrase : Option Text
  pub host_key : Option Text

-- The credentials of the system account.
pub record SystemAccount : Type 0 where
  pub sys_auth_method : Option AuthMethod
  pub sys_token : Option Text
  pub sys_user : Option Text
  pub sys_pass : Option Text
  pub sys_nkey_seed : Option Text
  pub sys_creds : Option Text

pub record ConnectionConfig : Type 0 where
  pub id : Text
  pub name : Option Text
  pub servers : List Text
  pub auth_method : AuthMethod
  pub token : Option Text
  pub user : Option Text
  pub pass : Option Text
  pub nkey_seed : Option Text
  pub creds : Option Text
  pub tls : Option Bool
  pub tls_ca : Option Text
  pub tls_cert : Option Text
  pub tls_key : Option Text
  pub tls_insecure : Option Bool
  pub tls_first : Option Bool
  pub subscriptions : List Text
  pub monitoring_url : Option Text
  pub monitoring_port : Option ℕ
  pub js_domain : Option Text
  pub js_api_prefix : Option Text
  pub ssh : Option SshConfig
  pub system_account : SystemAccount

abbrev pub topic_subject : SystemTopicKey → Text
topic_subject sys = codes "$SYS.>"
topic_subject js = codes "$JS.>"
topic_subject kv = codes "$KV.>"
topic_subject srv = codes "$SRV.>"

abbrev pub system_topics : List SystemTopicKey
system_topics = sys ∷ js ∷ kv ∷ srv ∷ []

-- `subs.includes(subject)`.
unfoldable pub includes : Text → List Text → Bool
unfolding text_beq
includes subject subs = any (λ s. s == subject) subs

-- The loop that adds the system topics.
unfoldable pub add_topics :
    (SystemTopicKey → Option Bool) → List SystemTopicKey → List Text → List Text
unfolding includes
add_topics wanted [] subs = subs
add_topics wanted (t ∷ ts) subs = add_topics wanted ts (
    if or_default false (wanted t) && not (includes (topic_subject t) subs)
    then subs ++ topic_subject t ∷ []
    else subs)

abbrev pub first? : List Text → Option Text
first? [] = none
first? (s ∷ ss) = some s

abbrev pub same_method : AuthMethod → AuthMethod → Bool
same_method none_needed none_needed = true
same_method token token = true
same_method userpass userpass = true
same_method nkey nkey = true
same_method jwt jwt = true
same_method a b = false

-- `condition ? value : undefined`.
abbrev pub when {ℓ} : {A : Type ℓ} → Bool → Option A → Option A
when true v = v
when false v = none

-- `port || undefined`, `flag || undefined` and `text?.trim() || undefined`.
abbrev pub some_port : Option ℕ → Option ℕ
some_port none = none
some_port (some n) = if nat_beq n 0 then none else some n

abbrev pub some_flag : Option Bool → Option Bool
some_flag none = none
some_flag (some true) = some true
some_flag (some false) = none

unfoldable pub trimmed : Option Text → Option Text
unfolding trim
trimmed none = none
trimmed (some s) = some_text (trim s)

abbrev pub ssh_to : SavedConnection → Option Text → Option SshConfig
ssh_to saved none = none
ssh_to saved (some host) = some record {
  host = host;
  port = some_port saved.ssh_port;
  user = trim (or_default [] saved.ssh_user);
  password = or_none saved.ssh_password;
  private_key = trimmed saved.ssh_key;
  passphrase = or_none saved.ssh_passphrase;
  host_key = trimmed saved.ssh_host_key;
}

unfoldable pub ssh_config : SavedConnection → Option SshConfig
unfolding trimmed trim
ssh_config saved = ssh_to saved (when (or_default false saved.ssh_enabled) (trimmed saved.ssh_host))

abbrev pub account_of : SavedConnection → AuthMethod → SystemAccount
account_of saved m = record {
  sys_auth_method = when (not (same_method m none_needed)) (some m);
  sys_token = when (same_method m token) saved.sys_token;
  sys_user = when (same_method m userpass) saved.sys_user;
  sys_pass = when (same_method m userpass) saved.sys_pass;
  sys_nkey_seed = when (same_method m nkey) saved.sys_nkey_seed;
  sys_creds = when (same_method m jwt) saved.sys_creds;
}

unfoldable pub system_account_config : SavedConnection → SystemAccount
system_account_config saved = account_of saved (or_default none_needed saved.sys_auth_method)

unfoldable pub to_connection_config : SavedConnection → ConnectionConfig
unfolding add_topics trimmed ssh_config system_account_config
to_connection_config saved = record {
  id = saved.id;
  name = if is_empty saved.name then first? saved.servers else some saved.name;
  servers = saved.servers;
  auth_method = saved.auth_method;
  token = when (same_method saved.auth_method token) saved.token;
  user = when (same_method saved.auth_method userpass) saved.user;
  pass = when (same_method saved.auth_method userpass) saved.pass;
  nkey_seed = when (same_method saved.auth_method nkey) saved.nkey_seed;
  creds = when (same_method saved.auth_method jwt) saved.creds;
  tls = saved.tls;
  tls_ca = when (or_default false saved.tls) (trimmed saved.tls_ca);
  tls_cert = when (or_default false saved.tls) (trimmed saved.tls_cert);
  tls_key = when (or_default false saved.tls) (trimmed saved.tls_key);
  tls_insecure = when (or_default false saved.tls) (some_flag saved.tls_insecure);
  tls_first = when (or_default false saved.tls) (some_flag saved.tls_first);
  subscriptions = add_topics saved.sys_topics system_topics saved.subscriptions;
  monitoring_url = or_none saved.monitoring_url;
  monitoring_port = some_port saved.monitoring_port;
  js_domain = trimmed saved.js_domain;
  js_api_prefix = trimmed saved.js_api_prefix;
  ssh = ssh_config saved;
  system_account = system_account_config saved;
}

-- `newSavedConnection`: the defaults under an id.
abbrev pub new_saved_connection : Text → SavedConnection
new_saved_connection id = record {
  id = id;
  name = [];
  servers = codes "nats://localhost:4222" ∷ [];
  auth_method = none_needed;
  token = none;
  user = none;
  pass = none;
  nkey_seed = none;
  creds = none;
  tls = none;
  tls_ca = none;
  tls_cert = none;
  tls_key = none;
  tls_insecure = none;
  tls_first = none;
  subscriptions = codes ">" ∷ [];
  sys_topics = λ t. none;
  auto_connect = none;
  monitoring_url = none;
  monitoring_port = none;
  js_domain = none;
  js_api_prefix = none;
  sys_auth_method = none;
  sys_token = none;
  sys_user = none;
  sys_pass = none;
  sys_nkey_seed = none;
  sys_creds = none;
  ssh_enabled = none;
  ssh_host = none;
  ssh_port = none;
  ssh_user = none;
  ssh_password = none;
  ssh_key = none;
  ssh_passphrase = none;
  ssh_host_key = none;
}

unfoldable pub strip_scheme : Text → Text
unfolding starts_with
strip_scheme s = if starts_with (codes "nats://") s then drop 7 s else s

unfoldable pub server_label : SavedConnection → Text
unfolding strip_scheme join_with
server_label saved = join_with (codes ", ") (map strip_scheme saved.servers)
