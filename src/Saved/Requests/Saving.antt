-- ===== src/Saved/Requests/Saving.antt =====
-- Saving a draft again.
use nats_explorer.Prelude.{
  ℕ, Text, List, [], ◌∷◌, Bool, Option, none, some, ltb, filter, ◌≡◌, refl, ap, inl, inr,
  Bool-cases,
}
use nats_explorer.Prelude.Trim.{trim, some_text, trim-trim}
use nats_explorer.Messages.{or_default}
use nats_explorer.Saved.Requests.{
  RequestMode, publish, request, PayloadFormat, json, text, xml, html, hex, base64, protobuf,
  RequestDraft, positive, says_something, expectation_of, expr_of, max_of, draft_from_saved,
  some_format, timeout_for, when_repeated, is_named, saved_from_draft,
}

pub filter-filter {ℓ} :
    {A : Type ℓ} (p : A → Bool) (xs : List A) → filter p (filter p xs) ≡ filter p xs
filter-filter p [] = refl
filter-filter p (x ∷ xs) = elim (Bool-cases (p x)) [
  | inl e ↦ rw (e, e) (ap (◌∷◌ x) (filter-filter p xs))
  | inr e ↦ rw e (filter-filter p xs)
]

format_again : (f : PayloadFormat) → some_format (or_default json (some_format f)) ≡ some_format f
format_again json = refl
format_again text = refl
format_again xml = refl
format_again html = refl
format_again hex = refl
format_again base64 = refl
format_again protobuf = refl

timeout_again :
    (m : RequestMode) (n : ℕ) → timeout_for m (or_default 5000 (timeout_for m n)) ≡ timeout_for m n
timeout_again publish n = refl
timeout_again request n = refl

-- A count of one is not kept, and what goes with a count is kept only with it.
count_again :
    (n : ℕ)
    → when_repeated
        (or_default 1 (when_repeated n (some n)))
        (some (or_default 1 (when_repeated n (some n))))
      ≡ when_repeated n (some n)
count_again n = elim (Bool-cases (ltb 1 n)) [ inl e ↦ rw (e, e) refl | inr e ↦ rw e refl ]

concurrency_again :
    (n c : ℕ)
    → when_repeated
        (or_default 1 (when_repeated n (some n)))
        (some (or_default 1 (when_repeated n (some c))))
      ≡ when_repeated n (some c)
concurrency_again n c = elim (Bool-cases (ltb 1 n)) [ inl e ↦ rw (e, e) refl | inr e ↦ rw e refl ]

positive_again : (n : ℕ) → positive (or_default 0 (positive n)) ≡ positive n
positive_again n = elim (Bool-cases (ltb 0 n)) [ inl e ↦ rw (e, e) refl | inr e ↦ rw e refl ]

interval_again :
    (n i : ℕ)
    → when_repeated
        (or_default 1 (when_repeated n (some n)))
        (positive (or_default 0 (when_repeated n (positive i))))
      ≡ when_repeated n (positive i)
interval_again n i = elim (Bool-cases (ltb 1 n)) [
  | inl e ↦ rw (e, e) (positive_again i)
  | inr e ↦ rw e refl
]

text_again : (t : Text) → or_default [] (some_text t) ≡ t
text_again [] = refl
text_again (c ∷ t) = refl

said_expr : (e : Option Text) (m : Option ℕ) → expr_of (says_something e m) ≡ or_default [] e
said_expr none none = refl
said_expr none (some m) = refl
said_expr (some e) m = refl

said_max : (e : Option Text) (m : Option ℕ) → max_of (says_something e m) ≡ or_default 0 m
said_max none none = refl
said_max none (some m) = refl
said_max (some e) m = refl

expectation_again :
    (expr : Text) (max : ℕ)
    → expectation_of (expr_of (expectation_of expr max)) (max_of (expectation_of expr max))
      ≡ expectation_of expr max
unfolding expectation_of
expectation_again expr max =
    rw
      (
        said_expr (some_text (trim expr)) (positive max),
        said_max (some_text (trim expr)) (positive max),
        text_again (trim expr),
        trim-trim expr,
        positive_again max,
      )
      refl

-- Saving what is read back from a saved template changes nothing: from any draft, the template and the form
-- that it fills give the same template again.
pub saved_from_draft-draft_from_saved :
    (now : ℕ) (d : RequestDraft) (id name : Text)
    → saved_from_draft now (draft_from_saved (saved_from_draft now d id name)) id name
      ≡ saved_from_draft now d id name
unfolding saved_from_draft draft_from_saved
saved_from_draft-draft_from_saved now d id name =
    rw
      (
        trim-trim d.subject,
        format_again d.format,
        filter-filter is_named d.headers,
        timeout_again d.mode d.timeout,
        count_again d.count,
        concurrency_again d.count d.concurrency,
        interval_again d.count d.interval_ms,
        expectation_again d.expect_expr d.expect_max_latency_ms,
      )
      refl
