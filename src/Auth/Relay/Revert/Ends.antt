-- ===== src/Auth/Relay/Revert/Ends.antt =====
-- The scan of the causes ends, on a cycle too, and what it finds.
use zk_voting.Prelude.{
  ℕ, zero, suc, ◌+◌, ◌≤◌, ◌<◌, ◌≡◌, refl, ◌⊎◌, inl, inr, false, Option, none, some, List, [], ◌∷◌,
  arith, length, get_elem?, Bool-cases, Option-cases, if◌then◌else◌,
}
use zk_voting.Prelude.Text.{Text}
use zk_voting.Auth.Relay.Revert.{
  Heap, ErrorObject, Decoder, decoded_name, Scan, found, ended, has_seen, or_continue, scan_causes,
  enough_fuel,
}

-- The object stands on the chain of causes from the cursor.
pub data IsCause (heap : Heap) : Option ℕ → ErrorObject → Type 0 where
  here : (i : ℕ) (o : ErrorObject) → get_elem? heap i ≡ some o → IsCause heap (some i) o
  further :
      (i : ℕ) (o p : ErrorObject)
      → get_elem? heap i ≡ some o
      → IsCause heap o.cause p
      → IsCause heap (some i) p

-- How many of the first `n` objects were not seen.
abbrev unseen : ℕ → List ℕ → ℕ
unseen zero seen = 0
unseen (suc n) seen = (if has_seen n seen then 0 else 1) + unseen n seen

unseen-add : (n i : ℕ) (seen : List ℕ) → unseen n (i ∷ seen) ≤ unseen n seen
unseen-add zero i seen = omega arith
unseen-add (suc n) i seen = ground (arith, unseen-add n i seen)

unseen-less :
    (n i : ℕ) (seen : List ℕ)
    → i < n
    → has_seen i seen ≡ false
    → unseen n (i ∷ seen) < unseen n seen
unseen-less zero i seen below new = absurd (omega (arith, below))
unseen-less (suc n) i seen below new =
    ground (arith, unseen-less n i seen, unseen-add n i seen, below, new)

unseen-le : (n : ℕ) (seen : List ℕ) → unseen n seen ≤ n
unseen-le zero seen = omega arith
unseen-le (suc n) seen = ground (arith, unseen-le n seen)

below_length : (heap : Heap) (i : ℕ) (o : ErrorObject) → get_elem? heap i ≡ some o → i < length heap
below_length [] i o h = absurd (cc)
below_length (x ∷ heap) zero o h = omega arith
below_length (x ∷ heap) (suc i) o h = let less = below_length heap i o h in omega (arith, less)

-- A scan that ended, or the name of an object on the chain.
abbrev pub Answers : Decoder → Heap → Option ℕ → Scan → Type 0
Answers decoder heap cursor result =
    (result ≡ ended)
    ⊎ ((name : Text) × (o : ErrorObject) × (result ≡ found name)
        × IsCause heap cursor o
        × (decoded_name decoder o ≡ some name))

module _ (decoder : Decoder) (heap : Heap) where
  go_further :
      (i : ℕ) (o : ErrorObject) (rest : Scan)
      → get_elem? heap i ≡ some o
      → Answers decoder heap o.cause rest
      → Answers decoder heap (some i) rest
  go_further i o rest e (inl done) = inl done
  go_further i o rest e (inr (name, p, result, later, named)) =
      inr (name, p, result, further i o p e later, named)

  at_object :
      (i : ℕ) (o : ErrorObject) (rest : Scan) (name : Option Text)
      → get_elem? heap i ≡ some o
      → decoded_name decoder o ≡ name
      → Answers decoder heap o.cause rest
      → Answers decoder heap (some i) (or_continue name rest)
  at_object i o rest none e n answers = go_further i o rest e answers
  at_object i o rest (some name) e n answers = inr (name, o, refl, here i o e, n)

  scan-Answers :
      (fuel : ℕ) (cursor : Option ℕ) (seen : List ℕ)
      → unseen (length heap) seen < fuel
      → Answers decoder heap cursor (scan_causes decoder heap fuel cursor seen)
  unfolding scan_causes
  scan-Answers zero cursor seen enough = absurd (omega (arith, enough))
  scan-Answers (suc fuel) none seen enough = inl refl
  scan-Answers (suc fuel) (some i) seen enough = elim (Bool-cases (has_seen i seen)) [
    | inl again ↦ inl (rw again refl)
    | inr new ↦ elim (Option-cases (get_elem? heap i)) [
      | inl missing ↦ inl (rw (new, missing) refl)
      | inr (o, e) ↦
          let less = unseen-less (length heap) i seen (below_length heap i o e) new in
          let rest = scan_causes decoder heap fuel o.cause (i ∷ seen) in
          rw (new, e)
            (at_object i o rest (decoded_name decoder o) e refl
              (scan-Answers fuel o.cause (i ∷ seen) (omega (arith, less, enough))))
    ]
  ]

  -- The scan of the causes of an error ends within one round more than there are objects, also
  -- where the causes are a cycle: with no name, or with the one that the payload of an object on
  -- the chain of causes decodes to.
  pub scan_causes_ends :
      (cursor : Option ℕ)
      → Answers decoder heap cursor (scan_causes decoder heap (enough_fuel heap) cursor [])
  scan_causes_ends cursor =
      let few = unseen-le (length heap) [] in
      scan-Answers (enough_fuel heap) cursor [] (omega (arith, few))
