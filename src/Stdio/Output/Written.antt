-- ===== src/Stdio/Output/Written.antt =====
-- src/stdio.c: what fwrite, and a flush after it, do on a descriptor.
use vlibc.Base.{
  ℕ, ◌+◌, ◌≤◌, ◌/◌, ◌≡◌, sym, ap, ◌∙◌, subst, ◌⊎◌, inl, inr, Bool, true, false, List, [], ◌++◌, not,
  ◌||◌, Option, none, some, append-nil, length, if◌then◌else◌,
}
use vlibc.Stdio.{File, is_none_left}
use vlibc.Stdio.Output.{flush_kind, fwrite, flush_buffer}
use vlibc.Stdio.Output.Kept.{strength, Fails, Emptied, flush_buffer-Emptied}
use vlibc.Stdio.Output.Loops.{Ended, IsReady, fwrite-Ended}

-- Bytes of which `t` are those sent, held before and written now.
abbrev pub Written : ℕ → List ℕ → Option (ℕ × File) → Type 0
Written all t none = ⊥
Written all t (some (n, f)) = Fails t f ⊎ ((n ≡ all) × (f.error ≡ false) × (f.sent ++ f.buf ≡ t))

Ended-Written : (all : ℕ) (t : List ℕ) (r : Option (ℕ × File)) → Ended all t r → Written all t r
Ended-Written all t none h = h
Ended-Written all t (some (n, g)) (inl h) = inl h
Ended-Written all t (some (n, g)) (inr (e, z, c, _)) = inr (e, z, c)

-- On a descriptor on which no error is noted, with answers to come of which as many take a byte as bytes are held
-- and written, fwrite returns in every mode of buffering. Either the error is noted and what was sent is a beginning of
-- the bytes sent, held and written, in their order; or all bytes count as written, no error is noted, and the bytes sent
-- and those held after it are exactly those before it with the new ones at the end.
pub fwrite-Written :
    (p : List ℕ) (size : ℕ) (f : File)
    → IsReady f
    → 1 ≤ size
    → length f.buf + length p ≤ strength f.replies
    → Written (length p / size) (f.sent ++ (f.buf ++ p)) (fwrite p size f)
fwrite-Written p size f r z s = Ended-Written _ _ (fwrite p size f) (fwrite-Ended p size f r z s)

-- After a flush with nothing more to write.
abbrev pub Flushed : List ℕ → Option (Bool × File) → Type 0
Flushed t none = ⊥
Flushed t (some (true, f)) = (f.error ≡ false) × (f.sent ≡ t) × (f.buf ≡ [])
Flushed t (some (false, f)) = Fails t f

Emptied-Flushed : (t : List ℕ) (r : Option (Bool × File)) → Emptied [] t r → Flushed t r
Emptied-Flushed t none h = h
Emptied-Flushed t (some (true, f)) ((_, _, _, _, z, _, c), e) =
    (z, sym (append-nil f.sent) ∙ (ap (λ (u : List ℕ). f.sent ++ (u ++ [])) (sym e) ∙ c), e)
Emptied-Flushed t (some (false, f)) h = h

nothing_left :
    (f : File) (t : List ℕ)
    → f.error ≡ false
    → f.sent ++ f.buf ≡ t
    → f.buf ≡ []
    → Flushed t (flush_buffer f)
unfolding flush_buffer
nothing_left f t z c e =
    subst
      (λ (q : List ℕ).
        Flushed t (if not f.has_buf || is_none_left q then some (true, f) else flush_kind f.kind f))
      (sym e) (by_buf f.has_buf)
  where
    by_buf : (x : Bool) → Flushed t (if not x || true then some (true, f) else flush_kind f.kind f)
    by_buf true = (z, sym (append-nil f.sent) ∙ (ap (f.sent ++◌) (sym e) ∙ c), e)
    by_buf false = (z, sym (append-nil f.sent) ∙ (ap (f.sent ++◌) (sym e) ∙ c), e)

-- After a write, a flush.
abbrev pub Delivered : ℕ → List ℕ → Option (ℕ × File) → Type 0
Delivered all t none = ⊥
Delivered all t (some (n, f)) = Fails t f ⊎ ((n ≡ all) × Flushed t (flush_buffer f))

Ended-Delivered : (all : ℕ) (t : List ℕ) (r : Option (ℕ × File)) → Ended all t r → Delivered all t r
Ended-Delivered all t none h = h
Ended-Delivered all t (some (n, g)) (inl h) = inl h
Ended-Delivered all t (some (n, g)) (inr (e, z, c, inl b)) = inr (e, nothing_left g t z c b)
Ended-Delivered all t (some (n, g)) (inr (e, z, c, inr h)) =
    inr (e, Emptied-Flushed t (flush_buffer g) (flush_buffer-Emptied g [] t h))

-- Under the same conditions as fwrite-Written, fwrite returns. If no error is noted then, all bytes count as written
-- and a flush returns: it succeeds, exactly the bytes sent, held and written are sent in their order and none is held,
-- or it fails, notes the error, and what was sent is a beginning of these bytes. If an error is noted by fwrite, what
-- it sent is such a beginning.
pub flush_buffer-fwrite-Delivered :
    (p : List ℕ) (size : ℕ) (f : File)
    → IsReady f
    → 1 ≤ size
    → length f.buf + length p ≤ strength f.replies
    → Delivered (length p / size) (f.sent ++ (f.buf ++ p)) (fwrite p size f)
flush_buffer-fwrite-Delivered p size f r z s =
    Ended-Delivered _ _ (fwrite p size f) (fwrite-Ended p size f r z s)
