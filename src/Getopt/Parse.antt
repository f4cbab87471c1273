-- ===== src/Getopt/Parse.antt =====
-- src/getopt.c: the calls of getopt read back the options that a command line was written from.
use vlibc.Base.{
  ℕ,
  suc,
  ◌+◌,
  ◌≡◌,
  ◌≢◌,
  refl,
  sym,
  ap,
  ◌∙◌,
  subst,
  true,
  false,
  List,
  [],
  ◌∷◌,
  Option,
  none,
  some,
  arith,
  ◌==◌,
  Bool-cases,
  inl,
  inr,
  length,
  drop,
  Int.{ℤ, pos},
}
use vlibc.Getopt.{Text, Getopt, fresh, char_int, open_word, opened, getopt}
use vlibc.Getopt.Line.{
  Word, flags, attached, apart, cluster, written, Result, plain_letters, meant, argv_length,
  Letters, Declared, Ends, terminator, calls, calls-suc, call_then, Over, Yields, drop-some,
  drop_suc, drop-none, at, getopt-flag, getopt-attached, getopt-apart, getopt-open,
}

module _ (argv : List Text) (optstring : Text) where
  -- One more call in front.
  Yields-first :
      (s t : Getopt) (r : ℤ) (rs : List Result) (k : ℕ)
      → getopt argv optstring s ≡ (r, t)
      → Yields argv optstring rs k t
      → Yields argv optstring ((r, t.optarg) ∷ rs) k s
  Yields-first s t r rs k e (same, last, index) =
      let step : calls argv optstring (suc (length rs)) s
          ≡ call_then argv optstring (length rs) (r, t) =
        calls-suc argv optstring (length rs) s ∙ ap (call_then argv optstring (length rs)) e in
      subst (λ (p : List Result × Getopt). Over argv optstring ((r, t.optarg) ∷ rs) k p) (sym step)
        (ap (λ (x : List Result). (r, t.optarg) ∷ x) same, last, index)

  -- An opened word yields what its cluster yields.
  Yields-open :
      (c : ℕ) (arg : Text) (more : List Text) (i : ℕ) (a : Option Text) (o : ℤ) (r : Result)
      (rs : List Result) (k : ℕ)
      → c ≢ b'-'
      → drop i argv ≡ (b'-' ∷ c ∷ arg) ∷ more
      → Yields argv optstring (r ∷ rs) k (at (c ∷ arg) (i + 1) a o)
      → Yields argv optstring (r ∷ rs) k (at [] i a o)
  Yields-open c arg more i a o r rs k ne e y =
      let n = length rs in
      let step : calls argv optstring (suc n) (at (c ∷ arg) (i + 1) a o)
          ≡ calls argv optstring (suc n) (at [] i a o) =
        calls-suc argv optstring n (at (c ∷ arg) (i + 1) a o)
        ∙ ap (call_then argv optstring n) (sym (getopt-open argv optstring c arg more i a o ne e))
        ∙ sym (calls-suc argv optstring n (at [] i a o)) in
      subst (λ (p : List Result × Getopt). Over argv optstring (r ∷ rs) k p) step y

  Yields-cluster :
      (cs tail : Text) (i k : ℕ) (rs : List Result) (o : ℤ)
      → Letters optstring cs
      → ((b : Option Text) → Yields argv optstring rs k (at tail i b o))
      → (b : Option Text)
      → Yields argv optstring (plain_letters cs rs) k (at (cluster cs tail) i b o)
  Yields-cluster [] tail i k rs o hs y b = y b
  Yields-cluster (c ∷ cs) tail i k rs o (h, hs) y b =
      Yields-first (at (c ∷ cluster cs tail) i b o) (at (cluster cs tail) i none o) (char_int c)
        (plain_letters cs rs) k (getopt-flag argv optstring c (cluster cs tail) i b o h)
        (Yields-cluster cs tail i k rs o hs y none)

  -- A word whose last letter c takes an argument.
  Yields-word :
      (cs : Text) (c : ℕ) (tail : Text) (more : List Text) (i k : ℕ) (a : Option Text) (r : Result)
      (rs : List Result) (o : ℤ)
      → Letters optstring cs
      → c ≢ b'-'
      → drop i argv ≡ (b'-' ∷ cluster cs (c ∷ tail)) ∷ more
      → ((b : Option Text) → Yields argv optstring (r ∷ rs) k (at (c ∷ tail) (i + 1) b o))
      → Yields argv optstring (plain_letters cs (r ∷ rs)) k (at [] i a o)
  Yields-word [] c tail more i k a r rs o hs ne e y =
      Yields-open c tail more i a o r rs k ne e (y a)
  Yields-word (d ∷ cs) c tail more i k a r rs o ((nd, h), hs) ne e y =
      Yields-open d (cluster cs (c ∷ tail)) more i a o (char_int d, none)
        (plain_letters cs (r ∷ rs)) k nd e
        (Yields-cluster (d ∷ cs) (c ∷ tail) (i + 1) k (r ∷ rs) o ((nd, h), hs) y a)

  Yields-end :
      (operands : List Text) (i : ℕ) (a : Option Text) (o : ℤ)
      → Ends operands
      → drop i argv ≡ operands
      → Yields argv optstring [] (i + terminator operands) (at [] i a o)
  unfolding calls getopt open_word opened
  Yields-end [] i a o h e = rw (drop-none argv i e) (refl, refl, omega arith)
  Yields-end ([] ∷ more) i a o h e = rw (drop-some argv more i [] e) (refl, refl, omega arith)
  Yields-end ((c ∷ []) ∷ more) i a o h e =
      rw (drop-some argv more i (c ∷ []) e) (refl, refl, omega arith)
  Yields-end ((c ∷ d ∷ []) ∷ more) i a o h e = elim (Bool-cases (c == b'-')) [
    | inl t ↦
        let k : (d == b'-') ≡ true = ground arith in
        rw (drop-some argv more i (c ∷ d ∷ []) e, t, k) (refl, refl, refl)
    | inr t ↦ rw (drop-some argv more i (c ∷ d ∷ []) e, t) (refl, refl, omega arith)
  ]
  Yields-end ((c ∷ d ∷ x ∷ s) ∷ more) i a o h e =
      let t : (c == b'-') ≡ false = ground arith in
      rw (drop-some argv more i (c ∷ d ∷ x ∷ s) e, t) (refl, refl, omega arith)

  Yields-moved :
      (rs : List Result) (k l : ℕ) (s : Getopt)
      → k ≡ l
      → Yields argv optstring rs k s
      → Yields argv optstring rs l s
  Yields-moved rs k l s e y = subst (λ (j : ℕ). Yields argv optstring rs j s) e y

  Yields-written :
      (ws : List Word) (operands : List Text) (i : ℕ) (a : Option Text) (o : ℤ)
      → Declared optstring ws
      → Ends operands
      → drop i argv ≡ written ws operands
      → Yields argv optstring (meant ws) (i + argv_length ws + terminator operands) (at [] i a o)
  Yields-written [] operands i a o hs h e =
      Yields-moved [] _ _ (at [] i a o) (omega arith) (Yields-end operands i a o h e)
  Yields-written (flags c cs ∷ ws) operands i a o ((hc, hcs), hs) h e =
      let more = written ws operands in
      let at_more = drop_suc argv more i (b'-' ∷ c ∷ cluster cs []) e in
      let rest : (b : Option Text) → _ = λ b. Yields-written ws operands (i + 1) b o hs h at_more in
      let k = i + 1 + argv_length ws + terminator operands in
      Yields-moved _ k _ (at [] i a o) (omega arith) (
        Yields-open c (cluster cs []) more i a o (char_int c, none) (plain_letters cs (meant ws)) k
          hc.0 e (Yields-cluster (c ∷ cs) [] (i + 1) k (meant ws) o (hc, hcs) rest a))
  Yields-written (attached cs c d arg ∷ ws) operands i a o ((hcs, hc), hs) h e =
      let more = written ws operands in
      let at_more = drop_suc argv more i (b'-' ∷ cluster cs (c ∷ d ∷ arg)) e in
      let rest = Yields-written ws operands (i + 1) (some (d ∷ arg)) o hs h at_more in
      let k = i + 1 + argv_length ws + terminator operands in
      Yields-moved _ k _ (at [] i a o) (omega arith) (
        Yields-word cs c (d ∷ arg) more i k a (char_int c, some (d ∷ arg)) (meant ws) o hcs hc.0 e
          (λ b.
            Yields-first (at (c ∷ d ∷ arg) (i + 1) b o) (at [] (i + 1) (some (d ∷ arg)) o)
              (char_int c) (meant ws) k (getopt-attached argv optstring c d arg (i + 1) b o hc)
              rest))
  Yields-written (apart cs c arg ∷ ws) operands i a o ((hcs, hc), hs) h e =
      let more = written ws operands in
      let at_arg = drop_suc argv (arg ∷ more) i (b'-' ∷ cluster cs (c ∷ [])) e in
      let at_more = drop_suc argv more (i + 1) arg at_arg in
      let rest = Yields-written ws operands (i + 1 + 1) (some arg) o hs h at_more in
      let k = i + 1 + 1 + argv_length ws + terminator operands in
      Yields-moved _ k _ (at [] i a o) (omega arith) (
        Yields-word cs c [] (arg ∷ more) i k a (char_int c, some arg) (meant ws) o hcs hc.0 e
          (λ b.
            Yields-first (at (c ∷ []) (i + 1) b o) (at [] (i + 1 + 1) (some arg) o) (char_int c)
              (meant ws) k (getopt-apart argv optstring c arg more (i + 1) b o hc at_arg) rest))

-- From fresh statics, the calls of getopt on a command line, a program's name, options and operands, answer the
-- letters of the options in their order, with optarg the argument of those that take one, whether it is
-- in the same element or the next; then -1, with optind at the first operand, behind a "--". The letters are
-- declared in optstring, with a ":" exactly if they take an argument, and are not "-"; the operands do not begin
-- with an element that opens with "-", other than "-" or "--".
pub getopt-written :
    (program optstring : Text) (ws : List Word) (operands : List Text)
    → Declared optstring ws
    → Ends operands
    → Yields
        (program ∷ written ws operands)
        optstring
        (meant ws)
        (1 + argv_length ws + terminator operands)
        fresh
getopt-written program optstring ws operands hs h =
    Yields-written (program ∷ written ws operands) optstring ws operands 1 none (pos 0) hs h refl
