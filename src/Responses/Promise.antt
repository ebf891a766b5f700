-- ===== src/Responses/Promise.antt =====
-- The store of store.go keeps the promises of its history.
use model_runner.Common.{
  ℕ, ◌+◌, ◌≤◌, ◌≡◌, refl, sym, ◌∙◌, ap, subst, Bool, true, false, List, [], ◌∷◌, Option, none, some,
  arith, Text, text_eq, text_eq_iff, ltb, if◌then◌else◌, Bool-cases, Option-cases, inl, inr,
}
use model_runner.Common.Int.{ℤ, pos, negsuc}
use model_runner.Common.Assoc.{
  lookup, insert, delete, text_eq_inst, HasDistinctKeys, lookup-insert, lookup-delete,
  insert-HasDistinctKeys, delete-HasDistinctKeys,
}
use model_runner.Responses.Store.{
  StoredResponse, Store, new_store, save, is_expired, get, delete_response, update,
}
use model_runner.Responses.Cleanup.{kept, lookup-cleanup, cleanup-HasDistinctKeys}
use model_runner.Responses.History.{
  Event, event_time, event_end, apply, run, EndsBy, renew, promise, good_at, Agrees, Agrees-later,
  apply-ttl, saved, deleted, updated, swept, same, gone,
}

if-HasDistinctKeys :
    (b : Bool) (x y : Store)
    → HasDistinctKeys x.responses
    → HasDistinctKeys y.responses
    → HasDistinctKeys (if b then x else y).responses
if-HasDistinctKeys true x y hx hy = hx
if-HasDistinctKeys false x y hx hy = hy

delete_response_found :
    (s : Store) (id : Text) (r : StoredResponse)
    → lookup id s.responses ≡ some r
    → (delete_response s id).0 ≡ record s { responses = delete id s.responses }
unfolding delete_response
delete_response_found s id r e = ground arith

delete_response_missing :
    (s : Store) (id : Text) → lookup id s.responses ≡ none → (delete_response s id).0 ≡ s
unfolding delete_response
delete_response_missing s id e = ground arith

update_found :
    (s : Store) (id : Text) (t u : ℕ) (r : StoredResponse)
    → lookup id s.responses ≡ some r
    → (update s id t u).0 ≡ (
        if is_expired t r then s else record s {
          responses =
              insert id (record { response = r.response; expires_at = u + s.ttl }) s.responses;
        })
unfolding update
update_found s id t u r e = ground arith

update_missing :
    (s : Store) (id : Text) (t u : ℕ) → lookup id s.responses ≡ none → (update s id t u).0 ≡ s
unfolding update
update_missing s id t u e = ground arith

AreDistinct : Store → Type 0
AreDistinct s = HasDistinctKeys s.responses

apply-HasDistinctKeys :
    (s : Store) (e : Event) → HasDistinctKeys s.responses → HasDistinctKeys (apply s e).responses
unfolding apply save AreDistinct
apply-HasDistinctKeys s (saved resp id t) d = insert-HasDistinctKeys id _ s.responses d
apply-HasDistinctKeys s (deleted id t) d = elim (Option-cases (lookup id s.responses)) [
  | inl e ↦ subst AreDistinct (sym (delete_response_missing s id e)) d
  | inr (r, e) ↦
      subst AreDistinct (sym (delete_response_found s id r e))
        (delete-HasDistinctKeys id s.responses d)
]
apply-HasDistinctKeys s (updated id t took) d = elim (Option-cases (lookup id s.responses)) [
  | inl e ↦ subst AreDistinct (sym (update_missing s id t (t + took) e)) d
  | inr (r, e) ↦
      subst AreDistinct (sym (update_found s id t (t + took) r e))
        (if-HasDistinctKeys (is_expired t r) _ _ d (insert-HasDistinctKeys id _ s.responses d))
]
apply-HasDistinctKeys s (swept t) d = cleanup-HasDistinctKeys s t d

lookup-delete_response :
    (s : Store) (j id : Text)
    → lookup id (delete_response s j).0.responses
      ≡ (if text_eq j id then none else lookup id s.responses)
unfolding delete_response
lookup-delete_response s j id = elim (Option-cases (lookup j s.responses)) [
  | inl e ↦ rw (e, delete_response) (ground (arith, text_eq_iff j id))
  | inr (r, e) ↦ rw (e, delete_response) (lookup-delete j id s.responses)
]

lookup-update :
    (s : Store) (j id : Text) (t u : ℕ)
    → lookup id (update s j t u).0.responses
      ≡ (if text_eq j id then renew s.ttl t u (lookup id s.responses) else lookup id s.responses)
unfolding update is_expired
lookup-update s j id t u = elim (Option-cases (lookup j s.responses)) [
  | inl e ↦ rw (e, update) (ground (arith, text_eq_iff j id))
  | inr (r, e) ↦ elim (Bool-cases (ltb r.expires_at t)) [
    | inl over ↦ rw (e, update) (simp over (ground (arith, text_eq_iff j id)))
    | inr good ↦
        let inserted =
          lookup-insert j id (record { response = r.response; expires_at = u + s.ttl })
            s.responses in
        rw (e, update) (simp good (ground (arith, text_eq_iff j id)))
  ]
]

Agrees-if :
    (t : ℕ) (b : Bool) (x x' y y' : Option StoredResponse)
    → Agrees t x y
    → Agrees t x' y'
    → Agrees t (if b then x else x') (if b then y else y')
Agrees-if t true x x' y y' h h' = h
Agrees-if t false x x' y y' h h' = h'

Agrees-renew :
    (ttl t u : ℕ) (x y : Option StoredResponse)
    → Agrees t x y
    → Agrees t (renew ttl t u x) (renew ttl t u y)
Agrees-renew ttl t u x y (same e) = same (ap (renew ttl t u) e)
Agrees-renew ttl t u x y (gone r h p lt) =
    gone r (ap (renew ttl t u) h)
      (ap (renew ttl t u) p
        ∙ (let over : ltb r.expires_at t ≡ true = ground arith in simp over refl))
      lt

kept_none : (t : ℕ) (x y : Option StoredResponse) → x ≡ y → Agrees t (kept t x) y
unfolding is_expired
kept_none t none y e = same e
kept_none t (some r) y e = elim (Bool-cases (ltb r.expires_at t)) [
  | inl over ↦ gone r (simp over refl) (sym e) (ground arith)
  | inr good ↦ same (simp good e)
]

Agrees-kept : (t : ℕ) (x y : Option StoredResponse) → Agrees t x y → Agrees t (kept t x) y
Agrees-kept t x y (same e) = kept_none t x y e
Agrees-kept t x y (gone r h p lt) = gone r (ap (kept t) h) p lt

apply-Agrees :
    (s : Store) (e : Event) (es : List Event) (id : Text)
    → HasDistinctKeys s.responses
    → Agrees (event_time e) (lookup id s.responses) (promise s.ttl es id)
    → Agrees (event_time e) (lookup id (apply s e).responses) (promise s.ttl (e ∷ es) id)
unfolding apply save
apply-Agrees s (saved resp j t) es id d a =
    subst (λ x. Agrees t x (promise s.ttl (saved resp j t ∷ es) id))
      (sym (lookup-insert j id (record { response = resp; expires_at = t + s.ttl }) s.responses))
      (Agrees-if t (text_eq j id) _ _ _ _ (same refl) a)
apply-Agrees s (deleted j t) es id d a =
    subst (λ x. Agrees t x (promise s.ttl (deleted j t ∷ es) id))
      (sym (lookup-delete_response s j id)) (Agrees-if t (text_eq j id) _ _ _ _ (same refl) a)
apply-Agrees s (updated j t took) es id d a =
    subst (λ x. Agrees t x (promise s.ttl (updated j t took ∷ es) id))
      (sym (lookup-update s j id t (t + took)))
      (Agrees-if t (text_eq j id) _ _ _ _ (Agrees-renew s.ttl t (t + took) _ _ a) a)
apply-Agrees s (swept t) es id d a =
    subst (λ x. Agrees t x (promise s.ttl es id)) (sym (lookup-cleanup s t id d))
      (Agrees-kept t _ _ a)

run-ttl : (s : Store) (es : List Event) → (run s es).ttl ≡ s.ttl
unfolding run
run-ttl s [] = refl
run-ttl s (e ∷ es) = apply-ttl (run s es) e ∙ run-ttl s es

run-HasDistinctKeys :
    (s : Store) (es : List Event)
    → HasDistinctKeys s.responses
    → HasDistinctKeys (run s es).responses
unfolding run
run-HasDistinctKeys s [] d = d
run-HasDistinctKeys s (e ∷ es) d = apply-HasDistinctKeys (run s es) e (run-HasDistinctKeys s es d)

event_time-end : (e : Event) → event_time e ≤ event_end e
event_time-end (saved resp id t) = omega arith
event_time-end (deleted id t) = omega arith
event_time-end (updated id t took) = omega arith
event_time-end (swept t) = omega arith

run-Agrees :
    (s : Store) (es : List Event) (now : ℕ) (id : Text)
    → s.responses ≡ []
    → EndsBy now es
    → Agrees now (lookup id (run s es).responses) (promise s.ttl es id)
unfolding run
run-Agrees s [] now id empty ends = same (ap (lookup id) empty ∙ unfold lookup in refl)
run-Agrees s (e ∷ es) now id empty ends =
    let before = run-Agrees s es (event_time e) id empty ends.1 in
    let ttl = run-ttl s es in
    let d = run-HasDistinctKeys s es (subst HasDistinctKeys (sym empty) tt) in
    Agrees-later (event_time e) now _ _ (omega (arith, event_time-end e, ends.0)) (
      subst
        (λ n.
          Agrees (event_time e) (lookup id (apply (run s es) e).responses) (promise n (e ∷ es) id))
        ttl
        (apply-Agrees (run s es) e es id d (
          subst (λ n. Agrees (event_time e) (lookup id (run s es).responses) (promise n es id))
            (sym ttl) before)))

get_good : (s : Store) (id : Text) (now : ℕ) → get s id now ≡ good_at now (lookup id s.responses)
unfolding get is_expired
get_good s id now = ground arith

good_at-Agrees :
    (now : ℕ) (x y : Option StoredResponse) → Agrees now x y → good_at now x ≡ good_at now y
good_at-Agrees now x y (same e) = ap (good_at now) e
good_at-Agrees now x y (gone r h p lt) =
    ap (good_at now) h
    ∙ sym (
        ap (good_at now) p
        ∙ (let over : ltb r.expires_at now ≡ true = ground arith in simp over refl))

new_store_empty : (ttl : ℤ) → (new_store ttl).responses ≡ []
unfolding new_store
new_store_empty (pos n) = refl
new_store_empty (negsuc n) = refl

-- After any history of saves, deletions, updates and cleanups whose times do not go back, Get by
-- the end or later gives what the history promises; cleanups make no difference.
pub get-run :
    (ttl : ℤ) (es : List Event) (now : ℕ) (id : Text)
    → EndsBy now es
    → get (run (new_store ttl) es) id now ≡ good_at now (promise (new_store ttl).ttl es id)
get-run ttl es now id ends =
    get_good (run (new_store ttl) es) id now
    ∙ good_at-Agrees now _ _ (run-Agrees (new_store ttl) es now id (new_store_empty ttl) ends)
