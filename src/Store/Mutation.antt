-- ===== src/Store/Mutation.antt =====
-- What holds of every mutation of a JSON file store.
use zk_voting.Prelude.{◌≡◌, refl, Bool, true, false, Option, none, some, List}
use zk_voting.Prelude.Outcome.{Outcome, ok, err, thrown}
use zk_voting.Store.{Disk, absent, stored, read, finish, on_file, Change, mutate}

-- The file is there with the store's layout, or there is none.
abbrev pub IsReadable : {A : Type 0} → Disk A → Type 0
IsReadable absent = Unit
IsReadable (stored xs) = Unit
IsReadable _ = ⊥

abbrev pub is_ok : {E A : Type 0} → Outcome E A → Bool
is_ok (ok a) = true
is_ok _ = false

module _ {E A T : Type 0} where
  finish_keeps :
      (P : Disk A → Type 0) (w : Bool) (disk : Disk A) (m : Change E A T)
      → P disk
      → ((ys : List A) (t : T) → m ≡ ok (some ys, t) → P (stored ys))
      → P (finish w disk m).0
  unfolding finish
  finish_keeps P w disk (ok (none, t)) h k = h
  finish_keeps P true disk (ok (some ys, t)) h k = k ys t refl
  finish_keeps P false disk (ok (some ys, t)) h k = h
  finish_keeps P w disk (err e) h k = h
  finish_keeps P w disk thrown h k = h

  on_file-eq-ok :
      (change : List A → Change E A T) (m : Outcome E (List A)) (r : Option (List A) × T)
      → on_file change m ≡ ok r
      → (xs : List A) × (m ≡ ok xs) × (change xs ≡ ok r)
  on_file-eq-ok change (ok xs) r h = (xs, refl, h)
  on_file-eq-ok change (err e) r h = absurd (cc)
  on_file-eq-ok change thrown r h = absurd (cc)

  finish_failed :
      (w : Bool) (disk : Disk A) (m : Change E A T)
      → is_ok (finish w disk m).1 ≡ false
      → (finish w disk m).0 ≡ disk
  unfolding finish
  finish_failed w disk (ok (none, t)) h = refl
  finish_failed true disk (ok (some ys, t)) h = absurd (cc)
  finish_failed false disk (ok (some ys, t)) h = refl
  finish_failed w disk (err e) h = refl
  finish_failed w disk thrown h = refl

module _ {E A T : Type 0} (refusal : E) (with_defaults : List A → List A) where
  -- A property of the file is kept, if it holds of every list that the change makes of the list read.
  pub mutate_keeps :
      (P : Disk A → Type 0) (w : Bool) (change : List A → Change E A T) (disk : Disk A)
      → P disk
      → ((xs ys : List A) (t : T)
          → read refusal with_defaults disk ≡ ok xs
          → change xs ≡ ok (some ys, t)
          → P (stored ys))
      → P (mutate refusal with_defaults w change disk).0
  unfolding mutate
  mutate_keeps P w change disk h k = finish_keeps P w disk _ h (λ ys t made.
      let (xs, got, changed) =
        on_file-eq-ok change (read refusal with_defaults disk) (some ys, t) made in
      k xs ys t got changed)

  -- A mutation that is refused or throws leaves the file as it was.
  pub mutate_failed :
      (w : Bool) (change : List A → Change E A T) (disk : Disk A)
      → is_ok (mutate refusal with_defaults w change disk).1 ≡ false
      → (mutate refusal with_defaults w change disk).0 ≡ disk
  unfolding mutate
  mutate_failed w change disk h = finish_failed w disk _ h
