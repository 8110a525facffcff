-- ===== src/Specs/Printed.antt =====
-- A line of four fields in the format that LabWork/Lab7/file_format.c describes, and how it is read.
pub mod RoundTrip
use cs.Common.{
  ℕ, zero, suc, ◌+◌, ◌-◌, ◌≡◌, ◌≢◌, ◌≤◌, refl, ap, sym, subst, ◌∙◌, Bool, true, false, not, ◌&&◌,
  List, [], ◌∷◌, ◌++◌, All, All-mono, Bytes, has, length, ◌==◌, arith, is_digit, AllDigits,
}
use cs.Tokens.Split.{Split, done, more, Inside}
use cs.Specs.{delim, take_line}
use cs.Specs.Lines.{content, ends_text, commas}

-- A byte that is no delimiter, does not start a comment and does not end the string.
abbrev pub is_plain : ℕ → Bool
is_plain c = not (has delim c) && (not (c == 35) && not (c == 0))

abbrev pub Plain : Bytes → Type 0
Plain = All (λ c. is_plain c ≡ true)

pub record Field (t : Bytes) : Type 0 where
  pub head : ℕ
  pub tail : Bytes
  pub nonempty : t ≡ head ∷ tail
  pub plain : Plain t

pub digits-Plain : (t : Bytes) → AllDigits t → Plain t
digits-Plain t h =
    All-mono (λ c. is_digit c ≡ true) (λ c. is_plain c ≡ true) t (λ c d. ground (arith, d)) h

pub content-Plain : (t rest : Bytes) → Plain t → content (t ++ rest) ≡ t ++ content rest
content-Plain [] rest h = refl
content-Plain (c ∷ t) rest h =
    let e : ends_text c ≡ false = ground (arith, h.0) in rw (e, content-Plain t rest h.1) refl

pub commas-Plain : (t rest : Bytes) → Plain t → commas (t ++ rest) ≡ commas rest
commas-Plain [] rest h = refl
commas-Plain (c ∷ t) rest h =
    let e : (c == 44) ≡ false = ground (arith, h.0) in rw (e, commas-Plain t rest h.1) refl

pub take_line-Plain :
    (n : ℕ) (t rest : Bytes)
    → Plain t
    → take_line (length t + n) (t ++ rest) ≡ (t ++ (take_line n rest).0, (take_line n rest).1)
unfolding take_line
take_line-Plain n [] rest h = let e : 0 + n ≡ n = omega arith in rw e refl
take_line-Plain n (c ∷ t) rest h =
    let e : (c == 10) ≡ false = ground (arith, h.0) in
    let k : suc (length t) + n ≡ suc (length t + n) = omega arith in
    rw (k, e, take_line-Plain n t rest h.1) refl

-- A field behind delimiters and before one is the next token.
pub Split-Field :
    (d t : Bytes) (c : ℕ) (rest : Bytes) (ts : List Bytes)
    → Inside true delim d
    → Field t
    → has delim c ≡ true
    → Split delim rest ts
    → Split delim (d ++ (t ++ c ∷ rest)) (t ∷ ts)
Split-Field d t c rest ts hd f hc split =
    let free =
      All-mono (λ b. is_plain b ≡ true) (λ b. has delim b ≡ false) t (λ b p. ground (arith, p))
        f.plain in
    subst (λ z. Split delim (d ++ (z ++ c ∷ rest)) (z ∷ ts)) (sym f.nonempty)
      (more (d ++ (f.head ∷ f.tail ++ c ∷ rest)) d f.head f.tail c rest ts refl hd
        (subst (Inside false delim) f.nonempty free) hc split)

-- The line of four fields, in front of the rest of the file.
module _ (f1 f2 f3 f4 : Bytes) where
  abbrev pub line : Bytes → Bytes
  line rest = f1 ++ 44 ∷ 32 ∷ (f2 ++ 44 ∷ 32 ∷ (f3 ++ 44 ∷ 32 ∷ (f4 ++ 10 ∷ rest)))

  module _ (h1 : Field f1) (h2 : Field f2) (h3 : Field f3) (h4 : Field f4) where
    pub line-Split : Split delim (line []) (f1 ∷ f2 ∷ f3 ∷ f4 ∷ [])
    line-Split =
        Split-Field [] f1 44 (32 ∷ (f2 ++ 44 ∷ 32 ∷ (f3 ++ 44 ∷ 32 ∷ (f4 ++ 10 ∷ []))))
          (f2 ∷ f3 ∷ f4 ∷ []) tt h1 refl
          (Split-Field (32 ∷ []) f2 44 (32 ∷ (f3 ++ 44 ∷ 32 ∷ (f4 ++ 10 ∷ []))) (f3 ∷ f4 ∷ [])
            (refl, tt) h2 refl
            (Split-Field (32 ∷ []) f3 44 (32 ∷ (f4 ++ 10 ∷ [])) (f4 ∷ []) (refl, tt) h3 refl
              (Split-Field (32 ∷ []) f4 10 [] [] (refl, tt) h4 refl (done [] [] refl tt))))

    pub content-line : content (line []) ≡ line []
    content-line =
        rw
          (
            content-Plain f1 (44 ∷ 32 ∷ (f2 ++ 44 ∷ 32 ∷ (f3 ++ 44 ∷ 32 ∷ (f4 ++ 10 ∷ []))))
                h1.plain,
            content-Plain f2 (44 ∷ 32 ∷ (f3 ++ 44 ∷ 32 ∷ (f4 ++ 10 ∷ []))) h2.plain,
            content-Plain f3 (44 ∷ 32 ∷ (f4 ++ 10 ∷ [])) h3.plain,
            content-Plain f4 (10 ∷ []) h4.plain,
          )
          refl

    pub commas-line : commas (line []) ≡ 3
    commas-line =
        rw
          (
            commas-Plain f1 (44 ∷ 32 ∷ (f2 ++ 44 ∷ 32 ∷ (f3 ++ 44 ∷ 32 ∷ (f4 ++ 10 ∷ []))))
                h1.plain,
            commas-Plain f2 (44 ∷ 32 ∷ (f3 ++ 44 ∷ 32 ∷ (f4 ++ 10 ∷ []))) h2.plain,
            commas-Plain f3 (44 ∷ 32 ∷ (f4 ++ 10 ∷ [])) h3.plain,
            commas-Plain f4 (10 ∷ []) h4.plain,
          )
          refl

    take_line-exact :
        (m : ℕ) (rest : Bytes)
        → take_line
            (length f1
              + suc (suc (length f2 + suc (suc (length f3 + suc (suc (length f4 + suc m)))))))
            (line rest)
          ≡ (line [], rest)
    unfolding take_line
    take_line-exact m rest =
        rw
          (
            take_line-Plain
                (suc (suc (length f2 + suc (suc (length f3 + suc (suc (length f4 + suc m))))))) f1
                (44 ∷ 32 ∷ (f2 ++ 44 ∷ 32 ∷ (f3 ++ 44 ∷ 32 ∷ (f4 ++ 10 ∷ rest)))) h1.plain,
            take_line-Plain (suc (suc (length f3 + suc (suc (length f4 + suc m))))) f2
                (44 ∷ 32 ∷ (f3 ++ 44 ∷ 32 ∷ (f4 ++ 10 ∷ rest))) h2.plain,
            take_line-Plain (suc (suc (length f4 + suc m))) f3 (44 ∷ 32 ∷ (f4 ++ 10 ∷ rest))
                h3.plain,
            take_line-Plain (suc m) f4 (10 ∷ rest) h4.plain,
          )
          refl

    pub take_line-line :
        (n : ℕ) (rest : Bytes)
        → length f1 + length f2 + length f3 + length f4 + 7 ≤ n
        → take_line n (line rest) ≡ (line [], rest)
    take_line-line n rest h =
        let m = n - (length f1 + length f2 + length f3 + length f4 + 7) in
        let e : length f1
              + suc (suc (length f2 + suc (suc (length f3 + suc (suc (length f4 + suc m))))))
            ≡ n =
          omega arith in
        subst (λ k. take_line k (line rest) ≡ (line [], rest)) e (take_line-exact m rest)
