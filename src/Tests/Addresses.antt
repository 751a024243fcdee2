-- ===== src/Tests/Addresses.antt =====
-- Links at concrete inputs, in a browser that prints entries character by character.
use nats_explorer.Prelude.{
  ℕ, zero, suc, Text, codes, List, [], ◌∷◌, ◌++◌, map, true, Option, text_beq, none, some, ◌≡◌,
  refl, ap, sym, ◌∙◌, arith, append_assoc, append-nil, ltb,
}
use nats_explorer.Messages.Keys.{digits_value, digits_value-decimal}
use nats_explorer.Store.{TimeRange, initial}
use nats_explorer.Links.Opening.{Page, shown, opened, resolve_pending}
use nats_explorer.Links.Opening.Same.{resolve_pending-address}
use nats_explorer.Links.{
  Browser, DeepLink, LinkState, subjects, parse_link, format_link, link_from_state,
}
use nats_explorer.Links.Reading.{IsBrowser, readable, parse_link-format_link}
use nats_explorer.Links.Sharing.{parse_link-link_from_state}

-- A character is printed as its successor, and a text ends with a zero.
print_entries : List (Text × Text) → Text
print_entries [] = []
print_entries ((k, v) ∷ params) = map suc k ++ (zero ∷ (map suc v ++ (zero ∷ print_entries params)))

words : Text → Text → List Text
words word [] = []
words word (zero ∷ t) = word ∷ words [] t
words word (suc c ∷ t) = words (word ++ c ∷ []) t

pair_up : List Text → List (Text × Text)
pair_up [] = []
pair_up (k ∷ []) = []
pair_up (k ∷ v ∷ ws) = (k, v) ∷ pair_up ws

words-word : (word w t : Text) → words word (map suc w ++ (zero ∷ t)) ≡ (word ++ w) ∷ words [] t
unfolding words
words-word word [] t = ap (λ x. x ∷ words [] t) (sym (append-nil word))
words-word word (c ∷ w) t =
    words-word (word ++ c ∷ []) w t ∙ ap (λ x. x ∷ words [] t) (append_assoc word (c ∷ []) w)

pair_up-words : (params : List (Text × Text)) → pair_up (words [] (print_entries params)) ≡ params
unfolding print_entries pair_up words
pair_up-words [] = refl
pair_up-words ((k, v) ∷ params) =
    ap pair_up (words-word [] k (map suc v ++ (zero ∷ print_entries params)))
    ∙ ap (λ ws. pair_up (k ∷ ws)) (words-word [] v (print_entries params))
    ∙ ap (◌∷◌ (k, v)) (pair_up-words params)

abbrev plain_browser : Browser
plain_browser = record {
  print = print_entries;
  read = λ t. pair_up (words [] t);
  Number = ℕ;
  of_ℕ = λ n. n;
  to_number = λ t. some (digits_value 0 t);
  below = ltb;
  round = λ n. n;
}

plain_browser-IsBrowser : IsBrowser plain_browser
plain_browser-IsBrowser = record {
  reads = pair_up-words;
  numbers = λ n. ap some (digits_value-decimal n);
  order = λ n m. refl;
  whole = λ n. refl;
}

abbrev an_hour : TimeRange
an_hour = record { from = 5; to = 3605; label = codes "1 h"; prose = codes "1 h" }

abbrev on_screen : LinkState
on_screen = record {
  module_of = subjects;
  active_conn_id = some (codes "c1");
  selected_subject = some (codes "plant.line");
  range = some an_hour;
  selected_stream = none;
  selected_kv_bucket = none;
  selected_kv_key = none;
  selected_obj_store = none;
  selected_service = none;
  selected_template_id = none;
}

parse_link-link_from_state_example :
    parse_link plain_browser (format_link plain_browser (link_from_state on_screen))
    ≡ link_from_state on_screen
parse_link-link_from_state_example =
    parse_link-link_from_state plain_browser on_screen plain_browser-IsBrowser
      (omega arith, omega arith)

-- A window from zero.
abbrev all_of_it : DeepLink
all_of_it = record {
  module_of = some subjects;
  conn = none;
  subject = some (codes "a");
  from = some 0;
  to = some 9;
  stream = none;
  bucket = none;
  key = none;
  store = none;
  service = none;
  template = none;
}

parse_link-format_link_example :
    parse_link plain_browser (format_link plain_browser all_of_it) ≡ readable all_of_it
parse_link-format_link_example =
    parse_link-format_link plain_browser subjects all_of_it plain_browser-IsBrowser

-- Another page that has the connection.
abbrev elsewhere : Page
elsewhere = record {
  module_of = subjects;
  app = record (initial []) {
    connections =
        record { id = codes "c1"; connected = true; live_pause_ms = none; live_paused_until = none }
        ∷ [];
    connections_loaded = true;
  };
}

abbrev no_label : ℕ → ℕ → Text
no_label from to = []

abbrev no_connection : Text → Option Text
no_connection id = none

resolve_pending-address_example :
    ((resolve_pending no_label [] no_connection (
        opened plain_browser
          (format_link plain_browser (link_from_state on_screen))
          elsewhere)).pending
      ≡ none)
    × (link_from_state (
          shown
            (resolve_pending no_label [] no_connection (
              opened plain_browser
                (format_link plain_browser (link_from_state on_screen))
                elsewhere)).page)
        ≡ link_from_state on_screen)
unfolding initial text_beq
resolve_pending-address_example =
    resolve_pending-address plain_browser no_label [] no_connection on_screen elsewhere (codes "c1")
      plain_browser-IsBrowser (omega arith, omega arith) refl refl refl refl
