-- ===== src/Saved/Requests/Differing.antt =====
-- When a draft counts as changed.
use nats_explorer.Prelude.{
  ℕ, zero, suc, Text, text_beq_iff, text_eq, ◌==◌, List, [], ◌∷◌, Bool, true, false, not, ◌&&◌,
  Option, none, some, filter, ◌≡◌, refl, ap, sym, ◌∙◌, nat_beq,
}
use nats_explorer.Prelude.Tests.{nat_beq_iff}
use nats_explorer.Saved.Requests.{
  RequestMode, publish, request, PayloadFormat, json, text, xml, html, hex, base64, protobuf,
  HeaderPair, SavedRequest, RequestDraft, expectation_of, draft_from_saved, is_named,
  saved_from_draft, mode_beq, format_index, format_beq, option_beq, headers_beq, same_norm,
  draft_differs,
}
use nats_explorer.Saved.Requests.Saving.{filter-filter, saved_from_draft-draft_from_saved}

mode_beq_refl : (m : RequestMode) → mode_beq m m ≡ true
mode_beq_refl publish = refl
mode_beq_refl request = refl

nat_beq_refl : (n : ℕ) → nat_beq n n ≡ true
nat_beq_refl n = (nat_beq_iff n n).1 refl

format_at : ℕ → PayloadFormat
format_at zero = json
format_at (suc zero) = text
format_at (suc (suc zero)) = xml
format_at (suc (suc (suc zero))) = html
format_at (suc (suc (suc (suc zero)))) = hex
format_at (suc (suc (suc (suc (suc zero))))) = base64
format_at n = protobuf

format_at_index : (f : PayloadFormat) → format_at (format_index f) ≡ f
unfolding format_at
format_at_index json = refl
format_at_index text = refl
format_at_index xml = refl
format_at_index html = refl
format_at_index hex = refl
format_at_index base64 = refl
format_at_index protobuf = refl

format_beq_refl : (f : PayloadFormat) → format_beq f f ≡ true
format_beq_refl f = nat_beq_refl (format_index f)

format_beq→eq : (a b : PayloadFormat) → format_beq a b ≡ true → a ≡ b
format_beq→eq a b h =
    sym (format_at_index a)
    ∙ ap format_at ((nat_beq_iff (format_index a) (format_index b)).0 h)
    ∙ format_at_index b

option_beq_refl {ℓ} :
    {A : Type ℓ} (test : A → A → Bool) (r : (a : A) → test a a ≡ true) (o : Option A)
    → option_beq test o o ≡ true
option_beq_refl test r none = refl
option_beq_refl test r (some a) = r a

headers_beq_refl : (hs : List HeaderPair) → headers_beq hs hs ≡ true
unfolding headers_beq
headers_beq_refl [] = refl
headers_beq_refl (h ∷ hs) =
    rw ((text_beq_iff h.key h.key).1 refl, (text_beq_iff h.value h.value).1 refl)
      (headers_beq_refl hs)

-- The time of the last change does not count.
same_norm_refl : (t : SavedRequest) (now : ℕ) → same_norm t (record t { updated_at = now }) ≡ true
unfolding same_norm
same_norm_refl t now =
    rw
      (
        mode_beq_refl t.mode,
        (text_beq_iff t.subject t.subject).1 refl,
        (text_beq_iff t.payload t.payload).1 refl,
        option_beq_refl format_beq format_beq_refl t.format,
        headers_beq_refl t.headers,
        option_beq_refl nat_beq nat_beq_refl t.timeout,
        option_beq_refl nat_beq nat_beq_refl t.count,
        option_beq_refl nat_beq nat_beq_refl t.concurrency,
        option_beq_refl nat_beq nat_beq_refl t.interval_ms,
      )
      refl

-- The form that is filled from a template that a draft was saved as does not differ from it.
draft_differs-saved :
    (now later : ℕ) (d : RequestDraft) (id name : Text)
    → draft_differs later
        (draft_from_saved (saved_from_draft now d id name))
        (saved_from_draft now d id name)
      ≡ false
unfolding draft_differs saved_from_draft draft_from_saved
draft_differs-saved now later d id name =
    let kept = saved_from_draft now d id name in
    let again = saved_from_draft later d id name in
    ap (λ s. not (same_norm s (record kept { headers = filter is_named kept.headers })))
      (saved_from_draft-draft_from_saved later d id name)
    ∙ ap (λ hs. not (same_norm again (record kept { headers = hs })))
        (filter-filter is_named d.headers)
    ∙ ap not (same_norm_refl again now)

both : (a b : Bool) → (a && b) ≡ true → (a ≡ true) × (b ≡ true)
both true b h = (refl, h)
both false b h = absurd (cc (h))

mode_beq→eq : (a b : RequestMode) → mode_beq a b ≡ true → a ≡ b
mode_beq→eq publish publish h = refl
mode_beq→eq publish request h = absurd (cc (h))
mode_beq→eq request publish h = absurd (cc (h))
mode_beq→eq request request h = refl

option_beq→eq {ℓ} :
    {A : Type ℓ} (test : A → A → Bool) (r : (a b : A) → test a b ≡ true → a ≡ b) (o p : Option A)
    → option_beq test o p ≡ true
    → o ≡ p
option_beq→eq test r none none h = refl
option_beq→eq test r none (some b) h = absurd (cc (h))
option_beq→eq test r (some a) none h = absurd (cc (h))
option_beq→eq test r (some a) (some b) h = ap some (r a b h)

headers_beq→eq : (hs ks : List HeaderPair) → headers_beq hs ks ≡ true → hs ≡ ks
unfolding headers_beq
headers_beq→eq [] [] h = refl
headers_beq→eq [] (b ∷ ks) h = absurd (cc (h))
headers_beq→eq (a ∷ hs) [] h = absurd (cc (h))
headers_beq→eq (a ∷ hs) (b ∷ ks) h =
    let s = both (a.key == b.key && a.value == b.value) (headers_beq hs ks) h in
    let t = both (a.key == b.key) (a.value == b.value) s.0 in
    let same : a ≡ b = (λ i. record {
      key = (text_beq_iff a.key b.key).0 t.0 i;
      value = (text_beq_iff a.value b.value).0 t.1 i;
    }) in
    cc (same, headers_beq→eq hs ks s.1)

nat_beq→eq : (a b : ℕ) → nat_beq a b ≡ true → a ≡ b
nat_beq→eq a b h = (nat_beq_iff a b).0 h

same_norm→eq :
    (a b : SavedRequest)
    → same_norm a b ≡ true
    → a ≡ record b { id = a.id; name = a.name; expect = a.expect; updated_at = a.updated_at }
unfolding same_norm
same_norm→eq a b h =
    let r1 = both _ _ h in
    let r2 = both _ _ r1.0 in
    let r3 = both _ _ r2.0 in
    let r4 = both _ _ r3.0 in
    let r5 = both _ _ r4.0 in
    let r6 = both _ _ r5.0 in
    let r7 = both _ _ r6.0 in
    let r8 = both _ _ r7.0 in
    let mode = mode_beq→eq a.mode b.mode r8.0 in
    let subject = (text_beq_iff a.subject b.subject).0 r8.1 in
    let payload = (text_beq_iff a.payload b.payload).0 r7.1 in
    let format = option_beq→eq format_beq format_beq→eq a.format b.format r6.1 in
    let headers = headers_beq→eq a.headers b.headers r5.1 in
    let timeout = option_beq→eq nat_beq nat_beq→eq a.timeout b.timeout r4.1 in
    let count = option_beq→eq nat_beq nat_beq→eq a.count b.count r3.1 in
    let concurrency = option_beq→eq nat_beq nat_beq→eq a.concurrency b.concurrency r2.1 in
    let interval_ms = option_beq→eq nat_beq nat_beq→eq a.interval_ms b.interval_ms r1.1 in
    λ i. record {
      id = a.id;
      name = a.name;
      mode = mode i;
      subject = subject i;
      payload = payload i;
      format = format i;
      headers = headers i;
      timeout = timeout i;
      count = count i;
      concurrency = concurrency i;
      interval_ms = interval_ms i;
      expect = a.expect;
      updated_at = a.updated_at;
    }

not-false : (b : Bool) → not b ≡ false → b ≡ true
not-false true h = refl
not-false false h = absurd (cc (h))

-- Saving a draft that does not differ from its template changes the template in nothing but what it expects
-- of the reply, the time of the change and headers without a name, which are left out.
pub draft_differs-unchanged :
    (now : ℕ) (d : RequestDraft) (t : SavedRequest)
    → draft_differs now d t ≡ false
    → saved_from_draft now d t.id t.name ≡ record t {
      headers = filter is_named t.headers;
      expect = expectation_of d.expect_expr d.expect_max_latency_ms;
      updated_at = now;
    }
unfolding draft_differs saved_from_draft
draft_differs-unchanged now d t h =
    same_norm→eq (saved_from_draft now d t.id t.name)
      (record t { headers = filter is_named t.headers }) (not-false _ h)
