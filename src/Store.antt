-- ===== src/Store.antt =====
-- The JSON file behind GnAccountStore (packages/nextjs/services/auth/accounts.ts) and
-- EnrolmentInviteStore (packages/nextjs/services/voters/enrolmentInvites.ts), whose `read`, `write`
-- and `mutate` are the same code. A mutation holds the queue from its read to its write, so that
-- it is one step on the file.
pub mod Mutation
use zk_voting.Prelude.{
  ◌≡◌, refl, ap, ◌⊎◌, inl, inr, Bool, true, false, Option, none, some, List, [],
}
use zk_voting.Prelude.Outcome.{Outcome, ok, err, thrown}

-- What stands at the store's path. A file is corrupt if it is no JSON or has another layout.
pub data Disk (A : Type 0) : Type 0 where
  absent unreadable corrupt : Disk A
  stored : List A → Disk A

-- `read()`: no file means no records, and `with_defaults` fills in what older records lack
unfoldable pub read : {E A : Type 0} → E → (List A → List A) → Disk A → Outcome E (List A)
read refusal with_defaults absent = ok []
read refusal with_defaults unreadable = thrown
read refusal with_defaults corrupt = err refusal
read refusal with_defaults (stored xs) = ok (with_defaults xs)

-- What a mutation asks for: a new list to write, if any, and a result.
abbrev pub Change : Type 0 → Type 0 → Type 0 → Type 0
Change E A T = Outcome E (Option (List A) × T)

module _ {E A T : Type 0} where
  -- `write` and what follows it; a failed write leaves the file as it was
  unfoldable pub finish : Bool → Disk A → Change E A T → Disk A × Outcome E T
  finish writable disk (ok (none, t)) = (disk, ok t)
  finish true disk (ok (some xs, t)) = (stored xs, ok t)
  finish false disk (ok (some xs, t)) = (disk, thrown)
  finish writable disk (err e) = (disk, err e)
  finish writable disk thrown = (disk, thrown)

  abbrev pub on_file : (List A → Change E A T) → Outcome E (List A) → Change E A T
  on_file change (ok xs) = change xs
  on_file change (err e) = err e
  on_file change thrown = thrown

  -- `mutate(fn)`; the first flag is whether the write succeeds
  unfoldable pub mutate :
      E → (List A → List A) → Bool → (List A → Change E A T) → Disk A → Disk A × Outcome E T
  unfolding read finish
  mutate refusal with_defaults writable change disk =
      finish writable disk (on_file change (read refusal with_defaults disk))
