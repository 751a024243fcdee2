-- ===== src/Links/Reading.antt =====
-- Reading the parameters of a link.
use nats_explorer.Prelude.{
  ℕ, Text, codes, text_beq, text_eq, ◌==◌, List, [], ◌∷◌, ◌++◌, Bool, false, ◌&&◌, Option, none,
  some, ◌≡◌, refl, ap, ◌∙◌, if◌then◌else◌, ltb, nat_beq, any, inl, inr, Bool-cases,
}
use nats_explorer.Prelude.Trim.{or_none}
use nats_explorer.Prelude.Table.{get}
use nats_explorer.Messages.{decimal}
use nats_explorer.Links.{
  Module, module_name, subjects, state, jetstream, kv, objects, services, requests, events, monitor,
  cluster, alerts, audit, DeepLink, Browser, path_of, query_of, find_module, param, number_in,
  Window, window_between, window_in, link_of, parse_link, entries, window_entries, fields_of,
  link_params, with_query, hash_of, format_link,
}

-- What is documented of the browser: entries that are printed are read back, a number in decimal is that
-- number, and numbers are ordered and rounded as they are.
pub record IsBrowser (b : Browser) : Type 0 where
  pub reads : (params : List (Text × Text)) → b.read (b.print params) ≡ params
  pub numbers : (n : ℕ) → b.to_number (decimal n) ≡ some (b.of_ℕ n)
  pub order : (n m : ℕ) → b.below (b.of_ℕ n) (b.of_ℕ m) ≡ ltb n m
  pub whole : (n : ℕ) → b.round (b.of_ℕ n) ≡ n

-- The first value under a key that is not empty.
abbrev first_of : Option Text → Option Text → Option Text
first_of none later = later
first_of (some []) later = later
first_of (some (c ∷ v)) later = some (c ∷ v)

value_in : Text → List (Text × Option Text) → Option Text → Option Text
unfolding text_beq
value_in k [] later = later
value_in k ((j, v) ∷ fields) later =
    let rest = value_in k fields later in if j == k then first_of v rest else rest

get-cons :
    (k j v : Text) (rest : List (Text × Text))
    → get k ((j, v) ∷ rest) ≡ (if j == k then some v else get k rest)
unfolding get
get-cons k j v rest = elim (Bool-cases (j == k)) [ inl e ↦ rw e refl | inr e ↦ rw e refl ]

get-entries :
    (k : Text) (fields : List (Text × Option Text)) (rest : List (Text × Text))
    → get k (entries fields ++ rest) ≡ value_in k fields (get k rest)
unfolding entries value_in
get-entries k [] rest = refl
get-entries k ((j, none) ∷ fields) rest = elim (Bool-cases (j == k)) [
  | inl e ↦ rw e (get-entries k fields rest)
  | inr e ↦ rw e (get-entries k fields rest)
]
get-entries k ((j, some []) ∷ fields) rest = elim (Bool-cases (j == k)) [
  | inl e ↦ rw e (get-entries k fields rest)
  | inr e ↦ rw e (get-entries k fields rest)
]
get-entries k ((j, some (c ∷ v)) ∷ fields) rest =
    get-cons k j (c ∷ v) (entries fields ++ rest)
    ∙ elim (Bool-cases (j == k)) [ inl e ↦ rw e refl | inr e ↦ rw e (get-entries k fields rest) ]

abbrev is_question : ℕ → Bool
is_question c = nat_beq c b'?'

-- No name of a module has a question mark.
module_name-plain : (m : Module) → any is_question (module_name m) ≡ false
unfolding module_name
module_name-plain subjects = refl
module_name-plain state = refl
module_name-plain jetstream = refl
module_name-plain kv = refl
module_name-plain objects = refl
module_name-plain services = refl
module_name-plain requests = refl
module_name-plain events = refl
module_name-plain monitor = refl
module_name-plain cluster = refl
module_name-plain alerts = refl
module_name-plain audit = refl

find_module-name : (m : Module) → find_module (module_name m) ≡ some m
unfolding find_module module_name text_beq
find_module-name subjects = refl
find_module-name state = refl
find_module-name jetstream = refl
find_module-name kv = refl
find_module-name objects = refl
find_module-name services = refl
find_module-name requests = refl
find_module-name events = refl
find_module-name monitor = refl
find_module-name cluster = refl
find_module-name alerts = refl
find_module-name audit = refl

path_of-query : (p query : Text) → any is_question p ≡ false → path_of (p ++ with_query query) ≡ p
unfolding path_of
path_of-query [] [] h = refl
path_of-query [] (c ∷ query) h = refl
path_of-query (c ∷ p) query h = elim (Bool-cases (is_question c)) [
  | inl e ↦ absurd (cc (rw e at h))
  | inr e ↦ rw e (ap (◌∷◌ c) (path_of-query p query (rw e at h)))
]

query_of-query :
    (p query : Text) → any is_question p ≡ false → query_of (p ++ with_query query) ≡ query
unfolding query_of
query_of-query [] [] h = refl
query_of-query [] (c ∷ query) h = refl
query_of-query (c ∷ p) query h = elim (Bool-cases (is_question c)) [
  | inl e ↦ absurd (cc (rw e at h))
  | inr e ↦ rw e (query_of-query p query (rw e at h))
]

-- The address of a module with entries is read as that module with those entries.
parse-hash :
    (b : Browser) (i : IsBrowser b) (m : Module) (params : List (Text × Text))
    → parse_link b (hash_of b (some m) params) ≡ link_of b (some m) params
unfolding parse_link
parse-hash b i m params =
    let name = module_name m in
    let query = b.print params in
    let path : path_of (name ++ with_query query) ≡ name =
      path_of-query name query (module_name-plain m) in
    let rest : query_of (name ++ with_query query) ≡ query =
      query_of-query name query (module_name-plain m) in
    rw (path, rest, find_module-name m, i.reads params) refl

get-window :
    (k : Text) (from to : Option ℕ)
    → text_beq (codes "from") k ≡ false
    → text_beq (codes "to") k ≡ false
    → get k (window_entries from to) ≡ none
unfolding get
get-window k none to h g = refl
get-window k (some from) none h g = refl
get-window k (some from) (some to) h g = rw (h, g) refl

or_none-first_of : (x : Option Text) → or_none (first_of x none) ≡ or_none x
or_none-first_of none = refl
or_none-first_of (some []) = refl
or_none-first_of (some (c ∷ v)) = refl

read_param :
    (k : Text) (x : Option Text) (link : DeepLink)
    → ((later : Option Text) → value_in k (fields_of link) later ≡ first_of x later)
    → text_beq (codes "from") k ≡ false
    → text_beq (codes "to") k ≡ false
    → param k (link_params link) ≡ or_none x
unfolding param link_params
read_param k x link own h g =
    ap or_none (get-entries k (fields_of link) (window_entries link.from link.to))
    ∙ ap or_none (own (get k (window_entries link.from link.to)))
    ∙ ap (λ later. or_none (first_of x later)) (get-window k link.from link.to h g)
    ∙ or_none-first_of x

-- What a window of a link is read as: a window from zero, or one that is empty, is none.
abbrev pub readable_window : Option ℕ → Option ℕ → Window
readable_window none to = record { from = none; to = none }
readable_window (some from) none = record { from = none; to = none }
readable_window (some from) (some to) =
    if ltb 0 from && ltb from to
    then record { from = some from; to = some to }
    else record { from = none; to = none }

read_window :
    (b : Browser) (i : IsBrowser b) (from to : Option ℕ)
    → window_between b
        (number_in b (get (codes "from") (window_entries from to)))
        (number_in b (get (codes "to") (window_entries from to)))
      ≡ readable_window from to
unfolding get text_beq
read_window b i none to = rw (i.order 0 0) refl
read_window b i (some from) none = rw (i.order 0 0) refl
read_window b i (some from) (some to) =
    rw (i.numbers from, i.numbers to, i.order 0 from, i.order from to, i.whole from, i.whole to)
      refl

get-link_params :
    (k : Text) (link : DeepLink)
    → ((later : Option Text) → value_in k (fields_of link) later ≡ later)
    → get k (link_params link) ≡ get k (window_entries link.from link.to)
unfolding link_params
get-link_params k link other =
    get-entries k (fields_of link) (window_entries link.from link.to)
    ∙ other (get k (window_entries link.from link.to))

-- What the address of a link says of it.
abbrev pub readable : DeepLink → DeepLink
readable link = record {
  module_of = link.module_of;
  conn = or_none link.conn;
  subject = or_none link.subject;
  from = (readable_window link.from link.to).from;
  to = (readable_window link.from link.to).to;
  stream = or_none link.stream;
  bucket = or_none link.bucket;
  key = or_none link.key;
  store = or_none link.store;
  service = or_none link.service;
  template = or_none link.template;
}

window_of-link :
    (b : Browser) (i : IsBrowser b) (link : DeepLink)
    → window_in b (link_params link) ≡ readable_window link.from link.to
unfolding value_in text_beq
window_of-link b i link =
    ap (λ f. window_between b (number_in b f) (number_in b (get (codes "to") (link_params link))))
      (get-link_params (codes "from") link (λ later. refl))
    ∙ ap
        (λ t.
          window_between b (number_in b (get (codes "from") (window_entries link.from link.to)))
            (number_in b t))
        (get-link_params (codes "to") link (λ later. refl))
    ∙ read_window b i link.from link.to

link_of-params :
    (b : Browser) (i : IsBrowser b) (m : Module) (link : DeepLink)
    → link_of b (some m) (link_params link) ≡ readable (record link { module_of = some m })
unfolding value_in text_beq
link_of-params b i m link =
    let conn = read_param (codes "conn") link.conn link (λ later. refl) refl refl in
    let subject = read_param (codes "subject") link.subject link (λ later. refl) refl refl in
    let stream = read_param (codes "stream") link.stream link (λ later. refl) refl refl in
    let bucket = read_param (codes "bucket") link.bucket link (λ later. refl) refl refl in
    let key = read_param (codes "key") link.key link (λ later. refl) refl refl in
    let store = read_param (codes "store") link.store link (λ later. refl) refl refl in
    let service = read_param (codes "service") link.service link (λ later. refl) refl refl in
    let template = read_param (codes "template") link.template link (λ later. refl) refl refl in
    let window = window_of-link b i link in
    λ j. record {
      module_of = some m;
      conn = conn j;
      subject = subject j;
      from = (window j).from;
      to = (window j).to;
      stream = stream j;
      bucket = bucket j;
      key = key j;
      store = store j;
      service = service j;
      template = template j;
    }

-- The address of a link that names a module is read as that link without its empty texts and without a
-- window that starts at zero or is empty, in any browser that reads back the entries and numbers it prints.
pub parse_link-format_link :
    (b : Browser) (m : Module) (link : DeepLink)
    → IsBrowser b
    → parse_link b (format_link b (record link { module_of = some m }))
      ≡ readable (record link { module_of = some m })
unfolding format_link
parse_link-format_link b m link i =
    parse-hash b i m (link_params (record link { module_of = some m }))
    ∙ link_of-params b i m (record link { module_of = some m })
