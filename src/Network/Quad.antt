-- ===== src/Network/Quad.antt =====
-- src/inet_ntop.c and src/inet_pton.c: an IPv4 address that inet_ntop writes is read back by inet_pton.
use vlibc.Base.{
  ℕ,
  ◌+◌,
  ◌-◌,
  ◌*◌,
  ◌/◌,
  ◌%◌,
  ◌^◌,
  ◌≤◌,
  ◌<◌,
  ◌≡◌,
  refl,
  ap,
  ◌∙◌,
  subst,
  true,
  false,
  List,
  [],
  ◌∷◌,
  ◌++◌,
  append-nil,
  append_assoc,
  some,
  arith,
  ◌==◌,
  ltb,
  length,
  length-append,
  take,
  Int.{pos},
}
use vlibc.Memory.{Mem, put, put-Outside, Outside, StrAt, StrAt-put, NoNul}
use vlibc.Printf.Format.{Arg, integer}
use vlibc.Strto.{to_int}
use vlibc.Printf.Buffer.{formatted, snprintf}
use vlibc.Printf.Bounded.{vsnprintf-formatted, take_short}
use vlibc.Address.{parse_ipv4, inet_aton}
use vlibc.Address.Dotted.{text, dotted, inet_aton-dotted}
use vlibc.Network.{inet}
use vlibc.Network.Print.{written, dotted_format, quad, inet_ntop, inet_ntoa}
use vlibc.Network.Parse.{af_inet, parsed, inet_pton}
use vlibc.Network.Octets.{
  decimal, NoNul-append, decimal-NoNul, decimal-length, octet, parse_ipv4-inet_aton, joined,
  at_end_nil, format-u, format-dot, format-end,
}

module _ (a b c d : ℕ) where
  abbrev quad_text : List ℕ
  quad_text = decimal a ++ b'.' ∷ (decimal b ++ b'.' ∷ (decimal c ++ b'.' ∷ decimal d))

  formatted-quad :
      a < 256
      → b < 256
      → c < 256
      → d < 256
      → formatted dotted_format
          (integer (pos a) ∷ integer (pos b) ∷ integer (pos c) ∷ integer (pos d) ∷ [])
        ≡ some quad_text
  unfolding formatted
  formatted-quad ha hb hc hd =
      let u : ℕ → Arg = λ n. integer (pos n) in
      let p3 : List ℕ = b'%' ∷ b'u' ∷ [] in
      let p2 : List ℕ = b'%' ∷ b'u' ∷ b'.' ∷ p3 in
      let p1 : List ℕ = b'%' ∷ b'u' ∷ b'.' ∷ p2 in
      let k1 : List ℕ = decimal a ++ b'.' ∷ [] in
      let k2 : List ℕ = k1 ++ decimal b ++ b'.' ∷ [] in
      let k3 : List ℕ = k2 ++ decimal c ++ b'.' ∷ [] in
      format-u 11 a (b'.' ∷ p1) [] (u b ∷ u c ∷ u d ∷ []) (omega arith)
      ∙ format-dot 10 p1 (decimal a) (u b ∷ u c ∷ u d ∷ [])
      ∙ format-u 9 b (b'.' ∷ p2) k1 (u c ∷ u d ∷ []) (omega arith)
      ∙ format-dot 8 p2 (k1 ++ decimal b) (u c ∷ u d ∷ [])
      ∙ format-u 7 c (b'.' ∷ p3) k2 (u d ∷ []) (omega arith)
      ∙ format-dot 6 p3 (k2 ++ decimal c) (u d ∷ [])
      ∙ format-u 5 d [] k3 [] (omega arith)
      ∙ format-end 4 (k3 ++ decimal d) []
      ∙ ap (λ (s : List ℕ). some s) (simp append_assoc)

  quad_text-NoNul : NoNul quad_text
  quad_text-NoNul =
      let t =
        NoNul-append (decimal c) (b'.' ∷ decimal d) (decimal-NoNul c)
          (omega arith, decimal-NoNul d) in
      let s =
        NoNul-append (decimal b) (b'.' ∷ (decimal c ++ b'.' ∷ decimal d)) (decimal-NoNul b)
          (omega arith, t) in
      NoNul-append (decimal a) (b'.' ∷ (decimal b ++ b'.' ∷ (decimal c ++ b'.' ∷ decimal d)))
        (decimal-NoNul a) (omega arith, s)

  quad_text-length : a < 256 → b < 256 → c < 256 → d < 256 → length quad_text ≤ 15
  quad_text-length ha hb hc hd =
      let t : List ℕ = decimal c ++ b'.' ∷ decimal d in
      let s : List ℕ = decimal b ++ b'.' ∷ t in
      omega (
        arith,
        decimal-length a ha,
        decimal-length b hb,
        decimal-length c hc,
        decimal-length d hd,
        length-append (decimal a) (b'.' ∷ s),
        length-append (decimal b) (b'.' ∷ t),
        length-append (decimal c) (b'.' ∷ decimal d),
      )

  parse_ipv4-quad :
      a < 256
      → b < 256
      → c < 256
      → d < 256
      → parse_ipv4 quad_text ≡ some (a * 2 ^ 24 + b * 2 ^ 16 + c * 2 ^ 8 + d)
  parse_ipv4-quad ha hb hc hd =
      let (oa, ea) = octet a ha in
      let (ob, eb) = octet b hb in
      let (oc, ec) = octet c hc in
      let (od, ed) = octet d hd in
      let rd : List ℕ = text od ++ [] in
      let rc : List ℕ = text oc ++ b'.' ∷ rd in
      let rb : List ℕ = text ob ++ b'.' ∷ rc in
      let at_d : rd ≡ decimal d = append-nil (text od) ∙ ed in
      let at_c : rc ≡ decimal c ++ b'.' ∷ decimal d =
        joined (text oc) (decimal c) rd (decimal d) ec at_d in
      let at_b : rb ≡ decimal b ++ b'.' ∷ (decimal c ++ b'.' ∷ decimal d) =
        joined (text ob) (decimal b) rc _ eb at_c in
      let same : dotted (λ x. x) a b c d oa ob oc od [] ≡ quad_text =
        joined (text oa) (decimal a) rb _ ea at_b in
      subst (λ (s : List ℕ). parse_ipv4 s ≡ some (a * 2 ^ 24 + b * 2 ^ 16 + c * 2 ^ 8 + d)) same
        (parse_ipv4-inet_aton (dotted (λ x. x) a b c d oa ob oc od [])
          (a * 2 ^ 24 + b * 2 ^ 16 + c * 2 ^ 8 + d)
          (inet_aton-dotted (λ x. x) a b c d oa ob oc od [] at_end_nil))

-- The text of the address `x`.
abbrev text_of : ℕ → List ℕ
text_of x = quad_text (x / 2 ^ 24 % 256) (x / 2 ^ 16 % 256) (x / 2 ^ 8 % 256) (x % 256)

abbrev stored : ℕ → ℕ → Mem → Mem
stored x dst m = put m dst (text_of x ++ 0 ∷ [])

module _ (x : ℕ) where
  first : x / 2 ^ 24 % 256 < 256
  first = omega arith

  second : x / 2 ^ 16 % 256 < 256
  second = omega arith

  third : x / 2 ^ 8 % 256 < 256
  third = omega arith

  fourth : x % 256 < 256
  fourth = omega arith

  text_of-length : length (text_of x) ≤ 15
  text_of-length =
      quad_text-length (x / 2 ^ 24 % 256) (x / 2 ^ 16 % 256) (x / 2 ^ 8 % 256) (x % 256) first
        second third fourth

  snprintf-text_of :
      (dst size : ℕ) (m : Mem)
      → 16 ≤ size
      → snprintf dst size dotted_format (quad x) m
        ≡ some (to_int (pos (length (text_of x))), stored x dst m)
  unfolding snprintf
  snprintf-text_of dst size m room =
      let made =
        formatted-quad (x / 2 ^ 24 % 256) (x / 2 ^ 16 % 256) (x / 2 ^ 8 % 256) (x % 256) first
          second third fourth in
      let some_room : (size == 0) ≡ false = ground arith in
      let whole : take (size - 1) (text_of x) ≡ text_of x =
        take_short (size - 1) (text_of x) (omega (arith, text_of-length)) in
      vsnprintf-formatted dst size dotted_format (quad x) m ∙ rw (made, some_room, whole) refl

  stored-StrAt : (dst : ℕ) (m : Mem) → StrAt (stored x dst m) dst (text_of x)
  stored-StrAt dst m =
      StrAt-put m dst (text_of x) []
        (quad_text-NoNul (x / 2 ^ 24 % 256) (x / 2 ^ 16 % 256) (x / 2 ^ 8 % 256) (x % 256))

  stored-Outside : (dst q : ℕ) (m : Mem) → Outside dst 16 q → stored x dst m q ≡ m q
  stored-Outside dst q m away =
      put-Outside m dst (text_of x ++ 0 ∷ []) q
        (let l = length-append (text_of x) (0 ∷ []) in ground (arith, text_of-length))

  parse_ipv4-text_of : x < 2 ^ 32 → parse_ipv4 (text_of x) ≡ some x
  parse_ipv4-text_of word =
      parse_ipv4-quad (x / 2 ^ 24 % 256) (x / 2 ^ 16 % 256) (x / 2 ^ 8 % 256) (x % 256) first second
        third fourth
      ∙ ap (λ (y : ℕ). some y) (omega arith)

module _ (htonl ntohl : ℕ → ℕ) (s_addr : ℕ) (undo : htonl (ntohl s_addr) ≡ s_addr)
    (word : ntohl s_addr < 2 ^ 32) where
  -- inet_ntop in a buffer of 16 bytes or more, with an IPv4 address, stores at dst a text, within 16 bytes;
  -- inet_pton reads it back as that address. ntohl has values of 32 bits, and htonl undoes it.
  pub inet_pton-inet_ntop :
      (dst size : ℕ) (m : Mem)
      → 16 ≤ size
      → (t : List ℕ) × (mem : Mem) × (inet_ntop ntohl (some (inet s_addr)) (some dst) size m
          ≡ written mem)
        × StrAt mem dst t
        × ((q : ℕ) → Outside dst 16 q → mem q ≡ m q)
        × (inet_pton htonl af_inet (some t) true ≡ parsed (inet s_addr))
  unfolding inet_ntop inet_pton
  inet_pton-inet_ntop dst size m room =
      let x = ntohl s_addr in
      let some_room : (size == 0) ≡ false = ground arith in
      let enough : ltb size 16 ≡ false = ground arith in
      (
        text_of x,
        stored x dst m,
        rw (some_room, enough, snprintf-text_of x dst size m room) refl,
        stored-StrAt x dst m,
        λ q away. stored-Outside x dst q m away,
        rw (parse_ipv4-text_of x word, undo) refl,
      )

  -- The same of inet_ntoa, in its own buffer, and inet_aton.
  pub inet_aton-inet_ntoa :
      (buf : ℕ) (m : Mem)
      → (t : List ℕ) × (mem : Mem) × (inet_ntoa ntohl s_addr buf m ≡ written mem)
        × StrAt mem buf t
        × (inet_aton htonl (some t) ≡ some s_addr)
  unfolding inet_ntoa inet_aton
  inet_aton-inet_ntoa buf m =
      let x = ntohl s_addr in
      (
        text_of x,
        stored x buf m,
        rw (snprintf-text_of x buf 16 m (omega arith)) refl,
        stored-StrAt x buf m,
        rw (parse_ipv4-text_of x word, undo) refl,
      )
