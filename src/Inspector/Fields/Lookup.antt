-- ===== src/Inspector/Fields/Lookup.antt =====
-- What `getNextTok` of Project1/inspector.c finds, in the list of the tokens of the file.
use cs.Common.{
  ℕ, zero, suc, ◌≡◌, ◌≤◌, ◌<◌, refl, sym, ◌∙◌, false, Option, none, some, List, [], ◌∷◌, ◌++◌,
  Bytes, codes, length, get_elem?, drop, strcmp_eq, if◌then◌else◌, Bool-cases, lt→ltb, inl, inr,
  arith,
}
use mathlib.Core.Option.{none-ne-some}
use cs.Tokens.{Call, call, next_token}
use cs.Tokens.Stream.{token_string}
use cs.Tokens.Leads.{Leads, Led, led, next_token-Led, Leads-append}
use cs.Inspector.Run.{State, Run, ok, take_bytes, read_into, copy_string}
use cs.Inspector.Fields.{stop_at, find_key, skip_tokens, get_next_tok, get_token, read_field}

-- The token that stands `n` places behind the one that follows the first `key`.
abbrev pub lookup : Bytes → ℕ → List Bytes → Option Bytes
lookup key n [] = none
lookup key n (t ∷ ts) = if strcmp_eq t key then get_elem? ts n else lookup key n ts

abbrev At : Bytes → Call → List Bytes → Type 0
At sep c ts = Led sep c.buffer c.str_ptr ts

-- A call that goes on behind the key.
record Found (sep : Bytes) (r : Option Call) (n : ℕ) (v : Bytes) : Type 0 where
  c : Call
  there : r ≡ some c
  others : List Bytes
  behind : At sep c others
  value : get_elem? others n ≡ some v

find_key-Found :
    (k : ℕ) (sep key : Bytes) (last : Call) (ts : List Bytes) (n : ℕ) (v : Bytes)
    → At sep last ts
    → length ts ≤ k
    → lookup key n ts ≡ some v
    → Found sep (find_key k sep key last) n v
unfolding find_key stop_at
find_key-Found k sep key last [] n v h fuel e = absurd (none-ne-some v e)
find_key-Found zero sep key last (t ∷ ts) n v h fuel e = absurd (omega arith)
find_key-Found (suc k) sep key last (t ∷ ts) n v h fuel e =
    let c = next_token sep last.buffer last.str_ptr in
    let step = next_token-Led sep last.buffer last.str_ptr t ts h in
    elim (Bool-cases (strcmp_eq t key)) [
      | inl same ↦
          rw (step.0, same)
            (record {
              c = c;
              there = refl;
              others = ts;
              behind = step.1;
              value = sym (rw same refl) ∙ e;
            })
      | inr other ↦
          rw (step.0, other)
            (find_key-Found k sep key c ts n v step.1 (omega arith) (sym (rw other refl) ∙ e))
    ]

skip_tokens-Led :
    (n : ℕ) (sep : Bytes) (last : Call) (ts : List Bytes) (v : Bytes)
    → At sep last ts
    → get_elem? ts n ≡ some v
    → token_string (skip_tokens (suc n) sep last) ≡ some v
unfolding skip_tokens
skip_tokens-Led n sep last [] v h e = absurd (none-ne-some v e)
skip_tokens-Led zero sep last (t ∷ ts) v h e =
    (next_token-Led sep last.buffer last.str_ptr t ts h).0 ∙ e
skip_tokens-Led (suc n) sep last (t ∷ ts) v h e =
    skip_tokens-Led n sep (next_token sep last.buffer last.str_ptr) ts v
      (next_token-Led sep last.buffer last.str_ptr t ts h).1 e

-- A call that returns the string `v`.
pub record Gives (r : Option Call) (v : Bytes) : Type 0 where
  pub c : Call
  pub there : r ≡ some c
  pub value : token_string c ≡ some v

-- x
pub get_next_tok-Gives :
    (buff sep key : Bytes) (n : ℕ) (ts : List Bytes) (v : Bytes)
    → strcmp_eq key (codes "NONE") ≡ false
    → Leads sep buff ts
    → length ts ≤ 10001
    → lookup key n ts ≡ some v
    → Gives (get_next_tok buff sep key n) v
unfolding get_next_tok
get_next_tok-Gives buff sep key n ts v named h fuel e =
    let found =
      find_key-Found 10001 sep key (call buff (some 0) none) ts n v (led [] buff refl refl h) fuel
        e in
    rw (named, found.there)
      (record {
        c = skip_tokens (suc n) sep found.c;
        there = refl;
        value = skip_tokens-Led n sep found.c found.others v found.behind found.value;
      })

pub get_next_tok-first :
    (buff sep : Bytes) (n : ℕ) (ts : List Bytes) (v : Bytes)
    → Leads sep buff (v ∷ ts)
    → Gives (get_next_tok buff sep (codes "NONE") n) v
unfolding get_next_tok
get_next_tok-first buff sep n ts v h = record {
  c = next_token sep buff (some 0);
  there = refl;
  value = (next_token-Led sep buff (some 0) v ts (led [] buff refl refl h)).0;
}

-- The field was read, and nothing was opened or shown.
pub record Reads (r : Run Bytes) (s : State) (v : Bytes) : Type 0 where
  pub after : State
  pub done : r ≡ ok v after
  pub same_opens : after.opens ≡ s.opens
  pub same_out : after.out ≡ s.out

copied :
    (size : ℕ) (s : State) (t : Option Bytes) (v : Bytes)
    → t ≡ some v
    → length v < size
    → copy_string size t s ≡ ok v s
unfolding copy_string
copied size s t v e fits = rw (e, lt→ltb (length v) size fits) refl

pub read_field-Reads :
    (file : Bytes) (n : ℕ) (sep key : Bytes) (k size : ℕ) (s : State) (v : Bytes)
    → ((old : Bytes) → Gives (get_next_tok (take_bytes n file ++ old) sep key k) v)
    → length v < size
    → Reads (read_field file n sep key k size s) s v
unfolding read_field read_into get_token
read_field-Reads file n sep key k size s v found fits =
    let bytes = take_bytes n file in
    let g = found (drop (length bytes) s.buf) in
    let after = record s { buf = g.c.buffer } in
    record {
      after = after;
      done = rw g.there (copied size after (token_string g.c) v g.value fits);
      same_opens = refl;
      same_out = refl;
    }

-- A file is read into the buffer of `main`, whatever stood there before, and `getNextTok` looks for a
-- key other than NONE: when what is read begins with at most 10001 tokens, each ended by a separator,
-- and the token that is so many places behind the first occurrence of the key is there among them and
-- fits the array, then this token is copied; no file is opened and nothing is shown.
pub read_field-Leads :
    (file : Bytes) (n : ℕ) (sep key : Bytes) (k size : ℕ) (s : State) (ts : List Bytes) (v : Bytes)
    → strcmp_eq key (codes "NONE") ≡ false
    → Leads sep (take_bytes n file) ts
    → length ts ≤ 10001
    → lookup key k ts ≡ some v
    → length v < size
    → Reads (read_field file n sep key k size s) s v
read_field-Leads file n sep key k size s ts v named h fuel e fits =
    read_field-Reads file n sep key k size s v
      (λ old.
        get_next_tok-Gives (take_bytes n file ++ old) sep key k ts v named
          (Leads-append sep (take_bytes n file) old ts h) fuel e)
      fits

pub read_field-first :
    (file : Bytes) (n : ℕ) (sep : Bytes) (k size : ℕ) (s : State) (ts : List Bytes) (v : Bytes)
    → Leads sep (take_bytes n file) (v ∷ ts)
    → length v < size
    → Reads (read_field file n sep (codes "NONE") k size s) s v
read_field-first file n sep k size s ts v h fits =
    read_field-Reads file n sep (codes "NONE") k size s v
      (λ old.
        get_next_tok-first (take_bytes n file ++ old) sep k ts v
          (Leads-append sep (take_bytes n file) old (v ∷ ts) h))
      fits
