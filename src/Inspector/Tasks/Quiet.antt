-- ===== src/Inspector/Tasks/Quiet.antt =====
-- The commands of Project1/inspector.c that show nothing.
use cs.Common.{
  ℕ, ◌+◌, ◌≡◌, refl, subst, Option, none, some, Bytes, codes, length, ltb, Bool-cases, Option-cases,
  inl, inr,
}
use cs.Tokens.Stream.{token_string}
use cs.Inspector.Run.{World, State, Run, ok, exit, fault, Cmd, and_then, read_into, copy_string}
use cs.Inspector.Fields.{get_next_tok, get_token, read_field, optional}
use cs.Inspector.Tasks.{get_user, uid_of, user_in, read_user}

-- What holds when the command does not fault; it does not exit.
abbrev pub Post {ℓ} : {A : Type ℓ} → (A → State → Type 0) → Run A → Type 0
Post Q (ok a s) = Q a s
Post Q (exit code out) = ⊥
Post Q (fault e) = Unit

pub and_then-Post {ℓ κ} :
    {A : Type ℓ} {B : Type κ} (Q : A → State → Type 0) (R : B → State → Type 0) (r : Run A)
    (f : A → Cmd B)
    → Post Q r
    → ((a : A) (s : State) → Q a s → Post R (f a s))
    → Post R (and_then r f)
and_then-Post Q R (ok a s) f h g = g a s h
and_then-Post Q R (exit code out) f h g = absurd h
and_then-Post Q R (fault e) f h g = tt

abbrev pub Quiet {ℓ} : {A : Type ℓ} → State → A → State → Type 0
Quiet s a s' = s'.out ≡ s.out

Quiet-after {ℓ} :
    {A : Type ℓ} (s s' : State) (r : Run A) → s'.out ≡ s.out → Post (Quiet s') r → Post (Quiet s) r
Quiet-after s s' r q h = subst (λ o. Post (λ a s2. s2.out ≡ o) r) q h

-- Two of them, one after the other.
pub and_then-Quiet {ℓ κ} :
    {A : Type ℓ} {B : Type κ} (s : State) (r : Run A) (f : A → Cmd B)
    → Post (Quiet s) r
    → ((a : A) (s' : State) → Post (Quiet s') (f a s'))
    → Post (Quiet s) (and_then r f)
and_then-Quiet s r f h g =
    and_then-Post (Quiet s) (Quiet s) r f h (λ a s' q. Quiet-after s s' (f a s') q (g a s'))

get_token-Quiet : (sep str : Bytes) (n : ℕ) (s : State) → Post (Quiet s) (get_token sep str n s)
unfolding get_token
get_token-Quiet sep str n s = elim (Option-cases (get_next_tok s.buf sep str n)) [
  | inl missing ↦ rw missing tt
  | inr (c, found) ↦ rw found refl
]

copy_string-Quiet :
    (size : ℕ) (t : Option Bytes) (s : State) → Post (Quiet s) (copy_string size t s)
unfolding copy_string
copy_string-Quiet size none s = tt
copy_string-Quiet size (some t) s = elim (Bool-cases (ltb (length t) size)) [
  | inl fits ↦ rw fits refl
  | inr long ↦ rw long tt
]

read_field-Quiet :
    (file : Bytes) (n : ℕ) (sep str : Bytes) (k size : ℕ) (s : State)
    → Post (Quiet s) (read_field file n sep str k size s)
unfolding read_field read_into
read_field-Quiet file n sep str k size s =
    and_then-Quiet s (get_token sep str k _) (λ c. copy_string size (token_string c))
      (get_token-Quiet sep str k _) (λ c s'. copy_string-Quiet size (token_string c) s')

pub optional-Quiet :
    (w : World) (path : Bytes) (n : ℕ) (sep str : Bytes) (k size : ℕ) (old : Bytes) (s : State)
    → Post (Quiet s) (optional w path n sep str k size old s)
unfolding optional
optional-Quiet w path n sep str k size old s = elim (Option-cases (w.open_proc s.opens path)) [
  | inl missing ↦ rw missing refl
  | inr (file, found) ↦
      rw found (read_field-Quiet file n sep str k size (record s { opens = s.opens + 1 }))
]

uid_of-Quiet : (t : Option Bytes) (s : State) → Post (Quiet s) (uid_of t s)
uid_of-Quiet none s = tt
uid_of-Quiet (some t) s = refl

user_in-Quiet :
    (w : World) (file : Option Bytes) (old : Bytes) (s : State)
    → Post (Quiet s) (user_in w file old s)
unfolding user_in read_into
user_in-Quiet w none old s = refl
user_in-Quiet w (some file) old s =
    and_then-Quiet s (get_token (codes " \n\t") (codes "Uid:") 0 _) _
      (get_token-Quiet (codes " \n\t") (codes "Uid:") 0 _)
      (λ c s1.
        and_then-Quiet s1 (uid_of (token_string c) s1) (λ uid. copy_string 16 (get_user w uid))
          (uid_of-Quiet (token_string c) s1) (λ uid s2. copy_string-Quiet 16 (get_user w uid) s2))

pub read_user-Quiet :
    (w : World) (path old : Bytes) (s : State) → Post (Quiet s) (read_user w path old s)
unfolding read_user
read_user-Quiet w path old s =
    user_in-Quiet w (w.open_proc s.opens path) old (record s { opens = s.opens + 1 })
