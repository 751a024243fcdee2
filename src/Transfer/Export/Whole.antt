-- ===== src/Transfer/Export/Whole.antt =====
-- The pages of an export against the range they are taken from.
use nats_explorer.Prelude.{
  ℕ, zero, suc, ◌+◌, ◌*◌, ◌≤◌, ◌<◌, Text, text_beq_iff, List, [], ◌∷◌, ◌++◌, Bool, true, false,
  ◌&&◌, ◌||◌, some, leb, length, take, drop, ◌≡◌, refl, sym, ap, ◌∙◌, arith, All, append_assoc,
  append-nil, length-append, length-drop, length-take, nat_beq, take-append-drop, All-append_left,
}
use nats_explorer.Prelude.Table.{set}
use nats_explorer.Prelude.Keyed.{upsert}
use nats_explorer.Prelude.Tests.{lt→ltb}
use nats_explorer.Messages.{NatsMessage}
use nats_explorer.Subjects.Match.{is_empty}
use nats_explorer.Transfer.Export.{
  RangePage, Server, export_max_messages, page_size, mark, export_cursors, ask_all, export_pass,
  stopped, loaded, export_loop, fetch_whole_range, pass_of_pages,
}

-- The answer of a server that has `rest` after the cursor: a page, and more where the page is full, even
-- if nothing follows it.
abbrev pub page_of : List NatsMessage → RangePage
page_of rest = record {
  messages = take page_size rest;
  more = nat_beq (length (take page_size rest)) page_size;
}

-- A page that is not full is the last.
last_page :
    (rest : List NatsMessage)
    → nat_beq (length (take page_size rest)) page_size ≡ false
    → length rest < page_size
last_page rest h = ground (arith, h, length-take page_size rest)

-- A message of the connection.
abbrev pub IsOf : Text → NatsMessage → Type 0
IsOf conn m = m.conn_id ≡ some conn

last_split :
    (xs : List NatsMessage)
    → is_empty xs ≡ false
    → (ys : List NatsMessage) × (y : NatsMessage) × (xs ≡ ys ++ y ∷ [])
last_split [] h = absurd (cc (h))
last_split (x ∷ []) h = ([], x, refl)
last_split (x ∷ z ∷ xs) h = let t = last_split (z ∷ xs) refl in (x ∷ t.0, t.1, ap (◌∷◌ x) t.2)

is_empty-append : (xs ys : List NatsMessage) → is_empty xs ≡ false → is_empty (xs ++ ys) ≡ false
is_empty-append [] ys h = absurd (cc (h))
is_empty-append (x ∷ xs) ys h = refl

nil_of_length : (xs : List NatsMessage) → length xs ≤ 0 → xs ≡ []
nil_of_length [] h = refl
nil_of_length (x ∷ xs) h = absurd (omega (arith, h))

or_false : (b : Bool) → (b || false) ≡ b
or_false true = refl
or_false false = refl

not_full : (n : ℕ) (b : Bool) → n < export_max_messages → (b && leb export_max_messages n) ≡ false
not_full n true h = ground arith
not_full n false h = refl

-- How a pass of the loop goes on.
loop-stopped :
    (guard : ℕ) (server : Server) (messages : List NatsMessage) (more : Bool)
    → export_pass server messages more ≡ stopped
    → export_loop (suc guard) server messages more ≡ some (messages, more)
unfolding export_loop
loop-stopped guard server messages more h = rw (h, export_loop) refl

loop-loaded :
    (guard : ℕ) (server : Server) (messages next : List NatsMessage) (more next_more : Bool)
    → export_pass server messages more ≡ loaded next next_more
    → export_loop (suc guard) server messages more ≡ export_loop guard server next next_more
unfolding export_loop
loop-loaded guard server messages next more next_more h = rw (h, export_loop) refl

loop_out :
    (server : Server) (messages : List NatsMessage) (more : Bool)
    → export_loop 0 server messages more ≡ some (messages, more)
unfolding export_loop
loop_out server messages more = refl

pass_false :
    (server : Server) (messages : List NatsMessage) → export_pass server messages false ≡ stopped
unfolding export_pass
pass_false server messages = refl

module _ (conn : Text) (named : is_empty conn ≡ false) where
  mark_lem :
      (m : NatsMessage) (cs : List (Text × NatsMessage)) → IsOf conn m → mark m cs ≡ set conn m cs
  unfolding mark
  mark_lem m cs h = rw (h, named) refl

  set_one : (m n : NatsMessage) → set conn n ((conn, m) ∷ []) ≡ (conn, n) ∷ []
  unfolding set upsert
  set_one m n = rw ((text_beq_iff conn conn).1 refl) refl

  cursors_one :
      (m n : NatsMessage) (ms : List NatsMessage)
      → All (IsOf conn) (ms ++ n ∷ [])
      → export_cursors (ms ++ n ∷ []) ((conn, m) ∷ []) ≡ (conn, n) ∷ []
  unfolding export_cursors
  cursors_one m n [] a = rw (mark_lem n ((conn, m) ∷ []) a.0, set_one m n) refl
  cursors_one m n (x ∷ ms) a =
      ap (export_cursors (ms ++ n ∷ [])) (mark_lem x ((conn, m) ∷ []) a.0 ∙ set_one m x)
      ∙ cursors_one x n ms a.1

  set_empty : (m : NatsMessage) → set conn m [] ≡ (conn, m) ∷ []
  unfolding set upsert
  set_empty m = refl

  -- One connection has one cursor, its last message.
  cursors_last :
      (n : NatsMessage) (ms : List NatsMessage)
      → All (IsOf conn) (ms ++ n ∷ [])
      → export_cursors (ms ++ n ∷ []) [] ≡ (conn, n) ∷ []
  unfolding export_cursors
  cursors_last n [] a = rw (mark_lem n [] a.0) (set_empty n)
  cursors_last n (x ∷ ms) a =
      ap (export_cursors (ms ++ n ∷ [])) (mark_lem x [] a.0 ∙ set_empty x) ∙ cursors_one x n ms a.1

  module _ (server : Server) (log : List NatsMessage) (of_conn : All (IsOf conn) log)
      (answers : (before after : List NatsMessage) (m : NatsMessage)
        → before ++ m ∷ after ≡ log
        → server conn m ≡ some (page_of after)) where
    ask_rest :
        (messages rest : List NatsMessage)
        → is_empty messages ≡ false
        → messages ++ rest ≡ log
        → ask_all server (export_cursors messages []) ≡ some (page_of rest ∷ [])
    unfolding ask_all
    ask_rest messages rest h e =
        let t = last_split messages h in
        let parts : t.0 ++ (t.1 ∷ rest) ≡ log =
          sym (append_assoc t.0 (t.1 ∷ []) rest) ∙ ap (λ xs. xs ++ rest) (sym t.2) ∙ e in
        let of_all : All (IsOf conn) (messages ++ rest) = rw e of_conn in
        let of_messages : All (IsOf conn) (t.0 ++ t.1 ∷ []) =
          rw t.2 at (All-append_left (IsOf conn) messages rest of_all) in
        rw (t.2, cursors_last t.1 t.0 of_messages, answers t.0 rest t.1 parts) refl

    cursors_some :
        (messages rest : List NatsMessage)
        → is_empty messages ≡ false
        → messages ++ rest ≡ log
        → is_empty (export_cursors messages []) ≡ false
    cursors_some messages rest h e =
        let t = last_split messages h in
        let of_all : All (IsOf conn) (messages ++ rest) = rw e of_conn in
        let of_messages : All (IsOf conn) (t.0 ++ t.1 ∷ []) =
          rw t.2 at (All-append_left (IsOf conn) messages rest of_all) in
        rw (t.2, cursors_last t.1 t.0 of_messages) refl

    pass_rest :
        (messages rest : List NatsMessage)
        → is_empty messages ≡ false
        → messages ++ rest ≡ log
        → length messages < export_max_messages
        → export_pass server messages true ≡ pass_of_pages messages (some (page_of rest ∷ []))
    unfolding export_pass
    pass_rest messages rest h e k =
        rw
          (
            lt→ltb (length messages) export_max_messages k,
            cursors_some messages rest h e,
            ask_rest messages rest h e,
          )
          refl

    pass_more :
        (messages rest : List NatsMessage) (x : NatsMessage)
        → is_empty messages ≡ false
        → messages ++ x ∷ rest ≡ log
        → length messages < export_max_messages
        → export_pass server messages true
          ≡ loaded (messages ++ take page_size (x ∷ rest)) (page_of (x ∷ rest)).more
    pass_more messages rest x h e k =
        pass_rest messages (x ∷ rest) h e k
        ∙ ap (λ ms. loaded (messages ++ ms) ((page_of (x ∷ rest)).more || false))
            (append-nil (take page_size (x ∷ rest)))
        ∙ ap (loaded (messages ++ take page_size (x ∷ rest))) (or_false (page_of (x ∷ rest)).more)

    -- Each pass takes a page off the rest, so that as many passes as the rest has pages bring the log.
    loop_rest :
        (guard : ℕ) (messages rest : List NatsMessage) (more : Bool)
        → is_empty messages ≡ false
        → messages ++ rest ≡ log
        → (more ≡ false → rest ≡ [])
        → length log < export_max_messages
        → length rest ≤ guard * page_size
        → (last_more : Bool) × (export_loop guard server messages more ≡ some (log, last_more))
    loop_rest zero messages [] more h e none_left k fits = (
      more,
      loop_out server messages more ∙ ap (λ xs. some (xs, more)) (sym (append-nil messages) ∙ e),
    )
    loop_rest zero messages (x ∷ rest) more h e none_left k fits = absurd (omega (arith, fits))
    loop_rest (suc guard) messages rest false h e none_left k fits =
        let all : messages ≡ log =
          sym (append-nil messages) ∙ ap (λ xs. messages ++ xs) (sym (none_left refl)) ∙ e in
        (
          false,
          loop-stopped guard server messages false (pass_false server messages)
              ∙ ap (λ xs. some (xs, false)) all,
        )
    loop_rest (suc guard) messages [] true h e none_left k fits =
        let all : messages ≡ log = sym (append-nil messages) ∙ e in
        (
          true,
          loop-stopped guard server messages true (pass_rest messages [] h e (rw (sym all) at k))
              ∙ ap (λ xs. some (xs, true)) all,
        )
    loop_rest (suc guard) messages (x ∷ rest) true h e none_left k fits =
        let page = take page_size (x ∷ rest) in
        let left = drop page_size (x ∷ rest) in
        let split : (messages ++ page) ++ left ≡ log =
          append_assoc messages page left
          ∙ ap (λ xs. messages ++ xs) (take-append-drop page_size (x ∷ rest))
          ∙ e in
        let sizes : length messages + suc (length rest) ≡ length log =
          sym (length-append messages (x ∷ rest)) ∙ ap length e in
        let below : length messages < export_max_messages = omega (arith, sizes, k) in
        let length-left = length-drop page_size (x ∷ rest) in
        let next =
          loop_rest guard (messages ++ page) left (page_of (x ∷ rest)).more
            (is_empty-append messages page h) split
            (λ last. nil_of_length left (omega (arith, length-left, last_page (x ∷ rest) last))) k
            (omega (arith, length-left, fits)) in
        (
          next.0,
          loop-loaded guard server messages (messages ++ page) true (page_of (x ∷ rest)).more
                (pass_more messages rest x h e below)
              ∙ next.1,
        )

-- What the export returns when the loop brings everything.
whole_all :
    (server : Server) (messages log : List NatsMessage) (more last_more : Bool)
    → length log < export_max_messages
    → export_loop 1000 server messages more ≡ some (log, last_more)
    → fetch_whole_range server messages (some more)
      ≡ some record { messages = log; truncated = false }
unfolding fetch_whole_range
whole_all server messages log more last_more k h = rw (h, not_full (length log) last_more k) refl

-- An export that starts from the newest messages of a recording with fewer than 200,000 messages, all of
-- one connection, ends with the whole recording and is not truncated. Conditions: the server answers a
-- cursor with the next page of the recording, of up to 5000 messages, and says that there are more exactly
-- when the page is full, even if nothing follows; and the view that the export starts from has a message and
-- says that there are no more only where it has the whole recording.
pub fetch_whole_range-all :
    (conn : Text) (server : Server) (log messages rest : List NatsMessage) (more : Bool)
    → is_empty conn ≡ false
    → All (IsOf conn) log
    → ((before after : List NatsMessage) (m : NatsMessage)
        → before ++ m ∷ after ≡ log
        → server conn m ≡ some (page_of after))
    → length log < export_max_messages
    → is_empty messages ≡ false
    → messages ++ rest ≡ log
    → (more ≡ false → rest ≡ [])
    → fetch_whole_range server messages (some more)
      ≡ some record { messages = log; truncated = false }
fetch_whole_range-all conn server log messages rest more named of_conn answers k h e none_left =
    let sizes : length messages + length rest ≡ length log =
      sym (length-append messages rest) ∙ ap length e in
    let run =
      loop_rest conn named server log of_conn answers 1000 messages rest more h e none_left k
        (omega (arith, sizes, k)) in
    whole_all server messages log more run.0 k run.1
