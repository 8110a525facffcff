-- ===== src/Www/Get.antt =====
-- `handle_request` of Project4/www.c on a whole request.
use cs.Common.{
  ℕ, zero, suc, ◌+◌, ◌≤◌, ◌<◌, ◌≡◌, ◌≢◌, refl, ap, subst, ◌∙◌, true, false, false≢true, true≢false,
  ◌==◌, All-mono, inl, Option, some, List, [], ◌∷◌, ◌++◌, All, All-append, Bytes, NoNul,
  no_nul→NoNul, codes, has, c_string_lem, strcmp_eq, length, length-append, arith,
}
use mathlib.Core.List.{append_assoc}
use cs.Tokens.{call, next_token}
use cs.Tokens.Split.{Inside}
use cs.Tokens.Step.{next_token_more, next_token_end}
use cs.Www.{
  End, Server, newline, crlf, blanks, buffer_size, respond, Header, asks, blank, other,
  header_of_call, second_token, parse_header, handle_header, handle_line, handle_from,
  handle_request,
}
use cs.Www.ReadLine.{OneLine, read_line_lem}

-- The two calls of `next_token` on the request line.
abbrev rest_of : ℕ → Bytes → Bytes → Bytes
rest_of u us v = u ∷ (us ++ 32 ∷ (v ++ 0 ∷ []))

first_call :
    (u : ℕ) (us v : Bytes)
    → next_token blanks (71 ∷ 69 ∷ 84 ∷ 32 ∷ rest_of u us v) (some 0)
      ≡ call (71 ∷ 69 ∷ 84 ∷ 0 ∷ rest_of u us v) (some 4) (some 0)
first_call u us v =
    next_token_more blanks [] [] 71 (69 ∷ 84 ∷ []) 32 (rest_of u us v) tt
      (no_nul→NoNul (71 ∷ 69 ∷ 84 ∷ []) refl) tt (refl, (refl, (refl, tt))) (inl refl)
      (λ e. absurd (omega (arith, e)))

second_call :
    (u : ℕ) (us v : Bytes)
    → NoNul (u ∷ us)
    → Inside false blanks (u ∷ us)
    → second_token (next_token blanks (71 ∷ 69 ∷ 84 ∷ 0 ∷ rest_of u us v) (some 4)) ≡ asks (u ∷ us)
unfolding second_token
second_call u us v n h =
    ap second_token (
      next_token_more blanks (71 ∷ 69 ∷ 84 ∷ 0 ∷ []) [] u us 32 (v ++ 0 ∷ []) tt n tt h (inl refl)
        (λ e. absurd (omega (arith, e))))
    ∙ ap asks (c_string_lem (u ∷ us) (v ++ 0 ∷ []) n)

parse_get :
    (u : ℕ) (us v : Bytes)
    → NoNul (u ∷ us)
    → Inside false blanks (u ∷ us)
    → parse_header (71 ∷ 69 ∷ 84 ∷ 32 ∷ u ∷ (us ++ 32 ∷ v)) ≡ asks (u ∷ us)
unfolding parse_header header_of_call
parse_get u us v n h =
    ap (λ z. header_of_call (next_token blanks (71 ∷ 69 ∷ 84 ∷ 32 ∷ u ∷ z) (some 0)))
      (append_assoc us (32 ∷ v) (0 ∷ []))
    ∙ (ap header_of_call (first_call u us v) ∙ second_call u us v n h)

parse_blank : parse_header (13 ∷ 10 ∷ []) ≡ blank
unfolding parse_header header_of_call
parse_blank = ap header_of_call (
    next_token_end blanks [] (13 ∷ 10 ∷ []) [] (no_nul→NoNul (13 ∷ 10 ∷ []) refl)
      (refl, (refl, tt)))

-- A header line without effect: its first word is not GET.
pub record Plain (l : Bytes) : Type 0 where
  pub x : ℕ
  pub word : Bytes
  pub c : ℕ
  pub rest : Bytes
  pub whole : l ≡ x ∷ (word ++ c ∷ rest)
  pub no_nul : NoNul (x ∷ word)
  pub no_blank : Inside false blanks (x ∷ word)
  pub blank_behind : has blanks c ≡ true
  pub not_get : strcmp_eq (x ∷ word) (codes "GET") ≡ false
  pub one_line : OneLine l
  pub short : length l < buffer_size

module _ (x : ℕ) (word : Bytes) (c : ℕ) (rest : Bytes) (no_nul : NoNul (x ∷ word))
    (no_blank : Inside false blanks (x ∷ word)) (blank_behind : has blanks c ≡ true)
    (not_get : strcmp_eq (x ∷ word) (codes "GET") ≡ false) where
  other_call :
      (p : Option ℕ) (behind : Bytes)
      → header_of_call (call (x ∷ (word ++ 0 ∷ behind)) p (some 0)) ≡ other
  unfolding header_of_call
  other_call p behind = rw (c_string_lem (x ∷ word) behind no_nul, not_get) refl

  parse_other : parse_header (x ∷ (word ++ c ∷ rest)) ≡ other
  unfolding parse_header
  parse_other =
      let behind = rest ++ 0 ∷ [] in
      let not_zero : c ≢ 0 =
        λ e. absurd (false≢true (subst (λ z. has blanks z ≡ true) e blank_behind)) in
      ap (λ z. header_of_call (next_token blanks (x ∷ z) (some 0)))
        (append_assoc word (c ∷ rest) (0 ∷ []))
      ∙ (ap header_of_call (
            next_token_more blanks [] [] x word c behind tt no_nul tt no_blank (inl blank_behind)
              not_zero)
          ∙ other_call (some (0 + (0 + suc (length word)) + 1)) behind)

-- Lines, each with its newline, before what is left.
abbrev pub join : List Bytes → Bytes → Bytes
join [] rest = rest
join (l ∷ ls) rest = l ++ newline ∷ join ls rest

pub length-join : (ls : List Bytes) (rest : Bytes) → length ls + length rest ≤ length (join ls rest)
length-join [] rest = omega arith
length-join (l ∷ ls) rest =
    omega (arith, length-join ls rest, length-append l (newline ∷ join ls rest))

module _ (s : Server) (end : End) where
  -- A round of the loop on a line that is not empty.
  round :
      (k : ℕ) (path : Bytes) (x : ℕ) (l rest : Bytes) (h : Header)
      → OneLine (x ∷ l)
      → length (x ∷ l) < buffer_size
      → parse_header (x ∷ (l ++ newline ∷ [])) ≡ h
      → handle_from (suc k) s path (x ∷ (l ++ newline ∷ rest)) end
        ≡ handle_header s (λ p r. handle_from k s p r end) path rest h
  unfolding handle_from handle_line
  round k path x l rest h one short e =
      ap (handle_line s (λ p r. handle_from k s p r end) path)
        (read_line_lem buffer_size (x ∷ l) rest end one short)
      ∙ ap (handle_header s (λ p r. handle_from k s p r end) path rest) e

  headers :
      (k : ℕ) (path : Bytes) (ls : List Bytes) (more : Bytes)
      → All Plain ls
      → length ls < k
      → handle_from k s path (join ls (crlf ++ more)) end ≡ respond s path
  unfolding handle_header
  headers zero path ls more h fuel = absurd (omega (arith, fuel))
  headers (suc k) path [] more h fuel =
      round k path 13 [] more blank ((λ e. absurd (omega (arith, e))), tt) (omega arith) parse_blank
  headers (suc k) path (l ∷ ls) more h fuel =
      let p = h.0 in
      let bytes = p.word ++ p.c ∷ p.rest in
      let next = join ls (crlf ++ more) in
      let parsed : parse_header (p.x ∷ (bytes ++ newline ∷ [])) ≡ other =
        ap (λ z. parse_header (p.x ∷ z)) (append_assoc p.word (p.c ∷ p.rest) (newline ∷ []))
        ∙ parse_other p.x p.word p.c (p.rest ++ newline ∷ []) p.no_nul p.no_blank p.blank_behind
            p.not_get in
      ap (λ z. handle_from (suc k) s path (z ++ newline ∷ next) end) p.whole
      ∙ (round k path p.x bytes next other (subst OneLine p.whole p.one_line)
            (subst (λ z. length z < buffer_size) p.whole p.short) parsed
          ∙ headers k path ls more h.1 (omega (arith, fuel)))

blanks-OneLine : (t : Bytes) → Inside false blanks t → OneLine t
blanks-OneLine t h =
    All-mono (λ c. has blanks c ≡ false) (λ c. c ≢ newline) t
      (λ c e z. true≢false (subst (λ d. has blanks d ≡ false) z e)) h

-- On a stream with the line `GET uri version`, where the uri is a word without zeros that, with the
-- version, fits the buffer, then lines below the size of the buffer with a first word other than GET,
-- then an empty line, `handle_request` answers for the path `.` with the uri behind it, whatever
-- follows.
pub handle_request_lem :
    (s : Server) (end : End) (u : ℕ) (us version : Bytes) (ls : List Bytes) (more : Bytes)
    → NoNul (u ∷ us)
    → Inside false blanks (u ∷ us)
    → OneLine version
    → length us + length version + 6 < buffer_size
    → All Plain ls
    → handle_request s (record {
      bytes = join ((codes "GET " ++ u ∷ (us ++ 32 ∷ version)) ∷ ls) (crlf ++ more);
      end = end;
    })
      ≡ respond s (46 ∷ u ∷ us)
unfolding handle_request handle_header
handle_request_lem s end u us version ls more n h one short plain =
    let l = 69 ∷ 84 ∷ 32 ∷ u ∷ (us ++ 32 ∷ version) in
    let next = join ls (crlf ++ more) in
    let parsed : parse_header (71 ∷ (l ++ newline ∷ [])) ≡ asks (u ∷ us) =
      ap (λ z. parse_header (71 ∷ 69 ∷ 84 ∷ 32 ∷ u ∷ z))
        (append_assoc us (32 ∷ version) (newline ∷ []))
      ∙ parse_get u us (version ++ newline ∷ []) n h in
    let size : length (71 ∷ l) < buffer_size =
      omega (arith, short, length-append us (32 ∷ version)) in
    let lines : length ls < length (71 ∷ (l ++ newline ∷ next)) =
      omega (arith, length-join ls (crlf ++ more), length-append l (newline ∷ next)) in
    let word = blanks-OneLine (u ∷ us) h in
    let letter : (c : ℕ) → (c == newline) ≡ false → c ≢ newline = λ c e z. ground (arith, e, z) in
    let behind : OneLine (us ++ 32 ∷ version) =
      All-append (λ c. c ≢ newline) us (32 ∷ version) word.1 (letter 32 refl, one) in
    let whole : OneLine (71 ∷ l) =
      (letter 71 refl, (letter 69 refl, (letter 84 refl, (letter 32 refl, (word.0, behind))))) in
    let fuel : length (71 ∷ (l ++ newline ∷ next)) + 1 ≡ suc (length (71 ∷ (l ++ newline ∷ next))) =
      omega arith in
    ap (λ k. handle_from k s [] (71 ∷ (l ++ newline ∷ next)) end) fuel
    ∙ (round s end (length (71 ∷ (l ++ newline ∷ next))) [] 71 l next (asks (u ∷ us)) whole size
          parsed
        ∙ headers s end (length (71 ∷ (l ++ newline ∷ next))) (46 ∷ u ∷ us) ls more plain lines)
