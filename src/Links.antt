-- ===== src/Links.antt =====
-- client/src/lib/deepLink.ts: the address of what is on screen. `URLSearchParams` and the browser's numbers
-- are a parameter.
pub mod Reading
pub mod Sharing
pub mod Opening
use nats_explorer.Prelude.{
  ℕ, Text, codes, text_beq, List, [], ◌∷◌, ◌++◌, map, Bool, true, false, not, ◌&&◌, Option, none,
  some, ◌==◌, text_eq, find, if◌then◌else◌, nat_beq, join_with,
}
use nats_explorer.Prelude.Trim.{some_text, or_none}
use nats_explorer.Prelude.Table.{get}
use nats_explorer.Messages.{or_default, decimal}
use nats_explorer.Subjects.Match.{is_empty}
use nats_explorer.Store.{TimeRange}

pub data Module : Type 0 where
  subjects state jetstream kv objects services requests events monitor cluster alerts audit : Module

abbrev pub modules : List Module
modules =
    subjects ∷ state ∷ jetstream ∷ kv ∷ objects ∷ services ∷ requests ∷ events ∷ monitor ∷ cluster
    ∷ alerts ∷ audit ∷ []

unfoldable pub module_name : Module → Text
module_name subjects = codes "subjects"
module_name state = codes "state"
module_name jetstream = codes "jetstream"
module_name kv = codes "kv"
module_name objects = codes "objects"
module_name services = codes "services"
module_name requests = codes "requests"
module_name events = codes "events"
module_name monitor = codes "monitor"
module_name cluster = codes "cluster"
module_name alerts = codes "alerts"
module_name audit = codes "audit"

pub record DeepLink : Type 0 where
  pub module_of : Option Module
  pub conn : Option Text
  pub subject : Option Text
  pub from : Option ℕ
  pub to : Option ℕ
  pub stream : Option Text
  pub bucket : Option Text
  pub key : Option Text
  pub store : Option Text
  pub service : Option Text
  pub template : Option Text

-- The entries of `URLSearchParams` and their text; `Number(text)`, none where it is not finite, with the
-- order of numbers and `Math.round`, which is asked for positive numbers only.
pub record Browser : Type 1 where
  pub print : List (Text × Text) → Text
  pub read : Text → List (Text × Text)
  pub Number : Type 0
  pub of_ℕ : ℕ → Number
  pub to_number : Text → Option Number
  pub below : Number → Number → Bool
  pub round : Number → ℕ

-- `s.startsWith(c) ? s.slice(1) : s`.
abbrev pub without_first : ℕ → Text → Text
without_first c [] = []
without_first c (d ∷ s) = if nat_beq d c then s else d ∷ s

-- What stands before the first `?`, and what stands behind it.
unfoldable pub path_of : Text → Text
path_of [] = []
path_of (c ∷ s) = let rest = path_of s in if nat_beq c b'?' then [] else c ∷ rest

unfoldable pub query_of : Text → Text
query_of [] = []
query_of (c ∷ s) = let rest = query_of s in if nat_beq c b'?' then s else rest

unfoldable pub find_module : Text → Option Module
unfolding text_beq module_name
find_module path = find (λ m. module_name m == path) modules

-- `params.get(k)` where it is not empty.
unfoldable pub param : Text → List (Text × Text) → Option Text
unfolding get
param k params = or_none (get k params)

-- `Number(params.get(k))`; without an entry that is `Number(null)`, zero.
abbrev pub number_in : (browser : Browser) → Option Text → Option browser.Number
number_in browser none = some (browser.of_ℕ 0)
number_in browser (some s) = browser.to_number s

pub record Window : Type 0 where
  pub from : Option ℕ
  pub to : Option ℕ

abbrev pub no_window : Window
no_window = record { from = none; to = none }

abbrev pub window_between :
    (browser : Browser) → Option browser.Number → Option browser.Number → Window
window_between browser none to = no_window
window_between browser (some from) none = no_window
window_between browser (some from) (some to) =
    if browser.below (browser.of_ℕ 0) from && browser.below from to
    then record { from = some (browser.round from); to = some (browser.round to) }
    else no_window

abbrev pub window_in : Browser → List (Text × Text) → Window
window_in browser params =
    window_between browser (number_in browser (get (codes "from") params))
      (number_in browser (get (codes "to") params))

abbrev pub link_of : Browser → Option Module → List (Text × Text) → DeepLink
link_of browser m params = record {
  module_of = m;
  conn = param (codes "conn") params;
  subject = param (codes "subject") params;
  from = (window_in browser params).from;
  to = (window_in browser params).to;
  stream = param (codes "stream") params;
  bucket = param (codes "bucket") params;
  key = param (codes "key") params;
  store = param (codes "store") params;
  service = param (codes "service") params;
  template = param (codes "template") params;
}

unfoldable pub parse_link : Browser → Text → DeepLink
unfolding path_of query_of find_module param get
parse_link browser hash =
    let s = without_first b'/' (without_first b'#' hash) in
    link_of browser (find_module (path_of s)) (browser.read (query_of s))

-- `params.set` for the fields that are there; the keys are different.
unfoldable pub entries : List (Text × Option Text) → List (Text × Text)
entries [] = []
entries ((k, none) ∷ fields) = entries fields
entries ((k, some []) ∷ fields) = entries fields
entries ((k, some (c ∷ v)) ∷ fields) = (k, c ∷ v) ∷ entries fields

abbrev pub window_entries : Option ℕ → Option ℕ → List (Text × Text)
window_entries none to = []
window_entries (some from) none = []
window_entries (some from) (some to) = (codes "from", decimal from) ∷ (codes "to", decimal to) ∷ []

abbrev pub fields_of : DeepLink → List (Text × Option Text)
fields_of link =
    (codes "conn", link.conn)
    ∷ (codes "subject", link.subject)
    ∷ (codes "stream", link.stream)
    ∷ (codes "bucket", link.bucket)
    ∷ (codes "key", link.key)
    ∷ (codes "store", link.store)
    ∷ (codes "service", link.service)
    ∷ (codes "template", link.template)
    ∷ []

unfoldable pub link_params : DeepLink → List (Text × Text)
unfolding entries decimal
link_params link = entries (fields_of link) ++ window_entries link.from link.to

abbrev pub with_query : Text → Text
with_query [] = []
with_query (c ∷ query) = b'?' ∷ c ∷ query

abbrev pub hash_of : Browser → Option Module → List (Text × Text) → Text
hash_of browser none params = []
hash_of browser (some m) params = codes "#/" ++ (module_name m ++ with_query (browser.print params))

unfoldable pub format_link : Browser → DeepLink → Text
unfolding link_params module_name
format_link browser link = hash_of browser link.module_of (link_params link)

-- What a link carries of the state of the page.
pub record LinkState : Type 0 where
  pub module_of : Module
  pub active_conn_id : Option Text
  pub selected_subject : Option Text
  pub range : Option TimeRange
  pub selected_stream : Option Text
  pub selected_kv_bucket : Option Text
  pub selected_kv_key : Option Text
  pub selected_obj_store : Option Text
  pub selected_service : Option Text
  pub selected_template_id : Option Text

abbrev pub module_link : Module → Option Text → DeepLink
module_link m conn = record {
  module_of = some m;
  conn = or_none conn;
  subject = none;
  from = none;
  to = none;
  stream = none;
  bucket = none;
  key = none;
  store = none;
  service = none;
  template = none;
}

abbrev pub with_range : Option TimeRange → DeepLink → DeepLink
with_range none link = link
with_range (some r) link = record link { from = some r.from; to = some r.to }

abbrev pub with_subject : Option Text → Option TimeRange → DeepLink → DeepLink
with_subject none range link = link
with_subject (some s) range link = with_range range (record link { subject = some s })

abbrev pub with_bucket : Option Text → Option Text → DeepLink → DeepLink
with_bucket none key link = link
with_bucket (some b) key link = record link { bucket = some b; key = key }

unfoldable pub link_from_state : LinkState → DeepLink
link_from_state s =
    let link = module_link s.module_of s.active_conn_id in
    elim s.module_of [
      | subjects ↦ with_subject (or_none s.selected_subject) s.range link
      | jetstream ↦ record link { stream = or_none s.selected_stream }
      | kv ↦ with_bucket (or_none s.selected_kv_bucket) (or_none s.selected_kv_key) link
      | objects ↦ record link { store = or_none s.selected_obj_store }
      | services ↦ record link { service = or_none s.selected_service }
      | requests ↦ record link { template = or_none s.selected_template_id }
      | _ ↦ link
    ]

-- `linkTarget`: the parts between zero characters.
unfoldable pub link_target : DeepLink → Text
unfolding join_with module_name
link_target link = join_with (0 ∷ []) (
    or_default [] (elim link.module_of [ none ↦ none | some m ↦ some (module_name m) ])
    ∷ map (λ (f : Text × Option Text). or_default [] f.1) (fields_of link))
