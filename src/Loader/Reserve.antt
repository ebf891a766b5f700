-- ===== src/Loader/Reserve.antt =====
-- Reserving a slot, as `load` of loader.go does, keeps the loader well formed.
use model_runner.Common.{
  ℕ, suc, ◌+◌, ◌≡◌, ◌≢◌, refl, sym, ◌∙◌, ap, true, false, List, [], ◌∷◌, Option, none, some, arith,
  get_elem?, Bool-cases, inl, inr, text_eq_iff, ◌==◌,
}
use model_runner.Common.Assoc.{lookup, lookup-insert_inv, insert-HasDistinctKeys, nat_eq}
use model_runner.Loader.Keys.{make_runner_key, runner_key_eq, mode_eq_iff}
use model_runner.Loader.State.{Loader, Runner, LoadingInfo, is_slot_loading}
use model_runner.Loader.Load.{
  Request, request_key, is_model_loading, is_same_load, find_slot, loading_info, reserve,
}
use model_runner.Loader.Invariant.{IsValid, load_key}

-- The slot that the search finds is free and not reserved.
pub find_slot_sound :
    (l : Loader) (rest : List (Option Runner)) (n s : ℕ)
    → find_slot l rest n ≡ some s
    → (d : ℕ) × (s ≡ n + d) × (get_elem? rest d ≡ some none) × (is_slot_loading l s ≡ false)
unfolding find_slot
find_slot_sound l [] n s h = absurd (ground arith)
find_slot_sound l (some r ∷ rest) n s h =
    let (d, at, free, open_slot) = find_slot_sound l rest (n + 1) s h in
    (suc d, omega arith, free, open_slot)
find_slot_sound l (none ∷ rest) n s h = elim (Bool-cases (is_slot_loading l n)) [
  | inl e ↦
      let (d, at, free, open_slot) = find_slot_sound l rest (n + 1) s (ground arith) in
      (suc d, omega arith, free, open_slot)
  | inr e ↦
      let here : n ≡ s = ground arith in
      (0, omega arith, refl, ap (is_slot_loading l) (sym here) ∙ e)
]

-- A load that is in the table has the key of the request exactly if it is for the same runner.
is_same_load_iff :
    (q : Request) (i : LoadingInfo) → load_key i ≡ request_key q → is_same_load q i ≡ true
unfolding is_same_load request_key make_runner_key
is_same_load_iff q i h = ground (
  arith,
  text_eq_iff i.backend_name q.backend_name,
  text_eq_iff i.model_id q.model_id,
  text_eq_iff i.draft_model_id q.draft_model_id,
  mode_eq_iff i.mode q.mode,
)

pub not_model_loading :
    (m : List (ℕ × LoadingInfo)) (q : Request) (s : ℕ) (i : LoadingInfo)
    → is_model_loading m q ≡ false
    → lookup s m ≡ some i
    → load_key i ≢ request_key q
unfolding is_model_loading lookup
not_model_loading [] q s i h found = λ e. absurd (ground arith)
not_model_loading ((t, j) ∷ m) q s i h found = λ e.
    let hit = is_same_load_iff q j in
    let rest = λ (f : lookup s m ≡ some i). not_model_loading m q s i (ground arith) f in
    elim (Bool-cases (t == s)) [
      | inl at ↦
          let same : j ≡ i = ground arith in let clash = hit (ap load_key same ∙ e) in ground arith
      | inr at ↦ rest (ground arith) e
    ]

pub load_key-loading_info : (q : Request) → load_key (loading_info q) ≡ request_key q
unfolding request_key
load_key-loading_info q = refl

-- A fresh request, on a slot that is free, keeps the loader well formed.
pub reserve-IsValid :
    (l : Loader) (q : Request) (slot : ℕ)
    → get_elem? l.slots slot ≡ some none
    → is_model_loading l.loading q ≡ false
    → lookup (request_key q) l.runners ≡ none
    → IsValid l
    → IsValid (reserve l q slot)
unfolding reserve
reserve-IsValid l q slot free idle fresh v = record {
  same_references = v.same_references;
  same_timestamps = v.same_timestamps;
  keys = v.keys;
  load_keys = insert-HasDistinctKeys slot (loading_info q) l.loading v.load_keys;
  occupied = v.occupied;
  separate = v.separate;
  owned = v.owned;
  reserved = λ s i h. elim (lookup-insert_inv slot s (loading_info q) i l.loading h) [
    | inl e ↦ ap (get_elem? l.slots) (sym e.0) ∙ free
    | inr e ↦ v.reserved s i e.1
  ];
  unique_load = λ s t i j hs ht e.
      let this = load_key-loading_info q in
      elim (lookup-insert_inv slot s (loading_info q) i l.loading hs) [
        | inl a ↦ elim (lookup-insert_inv slot t (loading_info q) j l.loading ht) [
          | inl b ↦ sym a.0 ∙ b.0
          | inr b ↦
              let clash : load_key j ≡ request_key q = sym e ∙ ap load_key (sym a.1) ∙ this in
              absurd (not_model_loading l.loading q t j idle b.1 clash)
        ]
        | inr a ↦ elim (lookup-insert_inv slot t (loading_info q) j l.loading ht) [
          | inl b ↦
              let clash : load_key i ≡ request_key q = e ∙ ap load_key (sym b.1) ∙ this in
              absurd (not_model_loading l.loading q s i idle a.1 clash)
          | inr b ↦ v.unique_load s t i j a.1 b.1 e
        ]
      ];
  fresh_load = λ s i h. elim (lookup-insert_inv slot s (loading_info q) i l.loading h) [
    | inl e ↦
        ap (λ (x : LoadingInfo). lookup (load_key x) l.runners) (sym e.1)
        ∙ ap (λ k. lookup k l.runners) (load_key-loading_info q)
        ∙ fresh
    | inr e ↦ v.fresh_load s i e.1
  ];
}
