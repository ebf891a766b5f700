-- ===== src/Responses/Cleanup.antt =====
-- What `cleanup` of store.go leaves.
use model_runner.Common.{
  ℕ, ◌≡◌, ◌≢◌, refl, sym, ◌∙◌, ap, List, [], ◌∷◌, Option, none, some, arith, Text, text_eq,
  text_eq_iff, if◌then◌else◌, Bool-cases, inl, inr,
}
use model_runner.Common.Assoc.{
  lookup, delete, text_eq_inst, HasDistinctKeys, lookup_head, lookup_step, lookup_tail,
  lookup-delete_self, lookup-delete_ne, delete-HasDistinctKeys,
}
use model_runner.Responses.Store.{StoredResponse, Store, is_expired, cleanup_loop, cleanup}

-- What becomes of an entry in a cleanup.
abbrev pub kept : ℕ → Option StoredResponse → Option StoredResponse
kept now none = none
kept now (some stored) = if is_expired now stored then none else some stored

after_entry :
    ℕ → Text → StoredResponse → List (Text × StoredResponse) → List (Text × StoredResponse)
after_entry now id stored m = if is_expired now stored then delete id m else m

lookup-after_entry_self :
    (now : ℕ) (id : Text) (stored : StoredResponse) (m : List (Text × StoredResponse))
    → lookup id m ≡ some stored
    → lookup id (after_entry now id stored m) ≡ kept now (some stored)
unfolding after_entry
lookup-after_entry_self now id stored m h = elim (Bool-cases (is_expired now stored)) [
  | inl e ↦ simp e (lookup-delete_self id m)
  | inr e ↦ simp e h
]

lookup-after_entry_ne :
    (now : ℕ) (id j : Text) (stored : StoredResponse) (m : List (Text × StoredResponse))
    → id ≢ j
    → lookup j (after_entry now id stored m) ≡ lookup j m
unfolding after_entry
lookup-after_entry_ne now id j stored m h = elim (Bool-cases (is_expired now stored)) [
  | inl e ↦ simp e (lookup-delete_ne id j m h)
  | inr e ↦ simp e refl
]

lookup-cleanup_loop :
    (now : ℕ) (entries m : List (Text × StoredResponse)) (id : Text)
    → HasDistinctKeys entries
    → ((j : Text) (s : StoredResponse) → lookup j entries ≡ some s → lookup j m ≡ some s)
    → lookup id (cleanup_loop now entries m)
      ≡ elim (lookup id entries) [ none ↦ lookup id m | some s ↦ kept now (some s) ]
unfolding cleanup_loop
lookup-cleanup_loop now [] m id d h = unfold lookup in refl
lookup-cleanup_loop now ((j, stored) ∷ rest) m id d h =
    let m' = after_entry now j stored m in
    let below : (k : Text) (s : StoredResponse) → lookup k rest ≡ some s → lookup k m' ≡ some s =
      λ k s found.
        let (there, other) = lookup_tail j k stored s rest d found in
        lookup-after_entry_ne now j k stored m other ∙ h k s there in
    let ih = lookup-cleanup_loop now rest m' id d.1 below in
    let first : cleanup_loop now ((j, stored) ∷ rest) m ≡ cleanup_loop now rest m' =
      unfold after_entry in refl in
    elim (Bool-cases (text_eq j id)) [
      | inl e ↦
          let same : j ≡ id = (text_eq_iff j id).0 e in
          let here : lookup id m' ≡ kept now (some stored) =
            ap (λ k. lookup k m') (sym same)
            ∙ lookup-after_entry_self now j stored m (h j stored (lookup_head j stored rest)) in
          let gone : lookup id rest ≡ none = ap (λ k. lookup k rest) (sym same) ∙ d.0 in
          ground (arith, first, ih, lookup_step j id stored rest)
      | inr e ↦
          let other : j ≢ id = ground (arith, text_eq_iff j id) in
          ground (
            arith,
            first,
            ih,
            lookup_step j id stored rest,
            lookup-after_entry_ne now j id stored m other,
          )
    ]

-- A cleanup removes exactly the expired responses.
pub lookup-cleanup :
    (s : Store) (now : ℕ) (id : Text)
    → HasDistinctKeys s.responses
    → lookup id (cleanup s now).responses ≡ kept now (lookup id s.responses)
unfolding cleanup
lookup-cleanup s now id d =
    let e = lookup-cleanup_loop now s.responses s.responses id d (λ j x h. h) in ground arith

cleanup_loop-HasDistinctKeys :
    (now : ℕ) (entries m : List (Text × StoredResponse))
    → HasDistinctKeys m
    → HasDistinctKeys (cleanup_loop now entries m)
unfolding cleanup_loop
cleanup_loop-HasDistinctKeys now [] m d = d
cleanup_loop-HasDistinctKeys now ((j, stored) ∷ rest) m d =
    elim (Bool-cases (is_expired now stored)) [
      | inl e ↦
          simp e (cleanup_loop-HasDistinctKeys now rest (delete j m) (delete-HasDistinctKeys j m d))
      | inr e ↦ simp e (cleanup_loop-HasDistinctKeys now rest m d)
    ]

pub cleanup-HasDistinctKeys :
    (s : Store) (now : ℕ) → HasDistinctKeys s.responses → HasDistinctKeys (cleanup s now).responses
unfolding cleanup
cleanup-HasDistinctKeys s now d = cleanup_loop-HasDistinctKeys now s.responses s.responses d
