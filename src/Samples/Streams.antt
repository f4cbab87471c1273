-- ===== src/Samples/Streams.antt =====
-- Streams that are written and read.
use vlibc.Base.{
  Option, ◌>>=◌, Bool, ℕ, ◌/◌, ◌≡◌, refl, inl, inr, true, false, List, [], ◌∷◌, none, some, arith,
}
use vlibc.Stdio.{descriptor, memory, by_line, wrote, interrupted, up_to, refused, File}
use vlibc.Stdio.Output.{fwrite, make_room, put_bytes}
use vlibc.Stdio.Output.Loops.{IsReady}
use vlibc.Stdio.Output.Written.{Written, Delivered, fwrite-Written, flush_buffer-fwrite-Delivered}
use vlibc.Stdio.Input.{fread, fgets, refill}
use vlibc.Stdio.Input.Fread.{Items, fread-Items}
use vlibc.Stdio.Input.Lines.{Line, fgets-Line}
use vlibc.Stdio.Delim.{getdelim}
use vlibc.Stdio.Delim.Whole.{IsWhole, getdelim-IsWhole}
use vlibc.Stdio.Place.{ftell}
use vlibc.Stdio.Place.Again.{Back, write_and_read, fread-fseek-fwrite-Back}

abbrev opened : File
opened = record {
  kind = descriptor;
  has_buf = true;
  buf = 104 ∷ 105 ∷ [];
  bufsize = 4;
  bufpos = 0;
  buf_mode = by_line;
  eof = false;
  error = false;
  ungot = none;
  shown = none;
  has_read = false;
  has_write = false;
  has_seek = false;
  sent = 35 ∷ [];
  source = 97 ∷ 98 ∷ 10 ∷ 99 ∷ [];
  replies = wrote 1 ∷ interrupted ∷ wrote 0 ∷ wrote 2 ∷ wrote 9 ∷ wrote 1 ∷ wrote 1 ∷ wrote 1 ∷ [];
  answers = up_to 2 ∷ up_to 1 ∷ up_to 5 ∷ up_to 5 ∷ refused ∷ up_to 1 ∷ [];
  seeks = [];
  syncs = [];
  allocs = true ∷ true ∷ [];
}

abbrev bytes : List ℕ
bytes = 10 ∷ 97 ∷ 98 ∷ []

opened-IsReady : IsReady opened
opened-IsReady = (refl, refl, inl (refl, omega arith, omega arith, (λ e. ground arith)))

fwrite-Written_example : Written (3 / 1) (35 ∷ 104 ∷ 105 ∷ bytes) (fwrite bytes 1 opened)
fwrite-Written_example = fwrite-Written bytes 1 opened opened-IsReady (omega arith) (omega arith)

-- The newline is sent with what was held, and two bytes are held after it.
fwrite_held :
    fwrite bytes 1 opened
    ≡ some (
      3,
      record opened {
        sent = 35 ∷ 104 ∷ 105 ∷ 10 ∷ [];
        buf = 97 ∷ 98 ∷ [];
        replies = wrote 9 ∷ wrote 1 ∷ wrote 1 ∷ wrote 1 ∷ [];
      },
    )
unfolding fwrite make_room put_bytes
fwrite_held = refl

flush_buffer-fwrite-Delivered_example :
    Delivered (3 / 1) (35 ∷ 104 ∷ 105 ∷ bytes) (fwrite bytes 1 opened)
flush_buffer-fwrite-Delivered_example =
    flush_buffer-fwrite-Delivered bytes 1 opened opened-IsReady (omega arith) (omega arith)

-- With nothing held, and a byte pushed back.
abbrev reading : File
reading = record opened { buf = []; ungot = some 120 }

fread-Items_example : Items 2 2 2 (97 ∷ 98 ∷ 10 ∷ 99 ∷ []) (some 120) (fread 2 2 reading)
fread-Items_example =
    fread-Items 2 2 2 reading (omega arith) (omega arith) (inr (omega arith))
      (inl (inr (refl, refl)))

fgets-Line_example : Line 5 (120 ∷ 97 ∷ 98 ∷ 10 ∷ 99 ∷ []) (fgets 6 reading)
fgets-Line_example = fgets-Line 5 reading (inr (omega arith)) (inl (inr (refl, refl)))

fgets_line :
    (fgets 6 reading)
    ≡ some (
      some (120 ∷ 97 ∷ 98 ∷ 10 ∷ []),
      record reading {
        ungot = none;
        buf = 10 ∷ [];
        bufpos = 1;
        source = 99 ∷ [];
        answers = up_to 5 ∷ up_to 5 ∷ refused ∷ up_to 1 ∷ [];
      },
    )
unfolding fgets refill
fgets_line = refl

abbrev in_memory : File
in_memory = record opened { kind = memory; bufpos = 1 }

fread-fseek-fwrite-Back_example :
    Back bytes (104 ∷ 10 ∷ 97 ∷ 98 ∷ []) (write_and_read bytes in_memory)
fread-fseek-fwrite-Back_example =
    fread-fseek-fwrite-Back bytes in_memory refl (omega arith) (omega arith)
      ((refl, (refl, tt)), omega arith)

abbrev grants : List Bool
grants = true ∷ true ∷ true ∷ true ∷ true ∷ true ∷ []

getdelim-IsWhole_example :
    IsWhole 98 (120 ∷ 97 ∷ 98 ∷ 10 ∷ 99 ∷ []) (getdelim true 1 grants 98 reading)
getdelim-IsWhole_example =
    getdelim-IsWhole true 1 98 grants reading (inr (omega arith)) (inl (inr (refl, refl)))
      ((refl, (refl, (refl, (refl, (refl, (refl, tt)))))), omega arith)

-- After one of two bytes read into the buffer is taken, ftell sends both to the descriptor.
abbrev quiet : File
quiet = record reading { ungot = none; replies = wrote 9 ∷ []; seeks = some (2, 10 ∷ 99 ∷ []) ∷ [] }

abbrev told : Option (List ℕ × List ℕ)
told = do (_, s, g) ← fread 1 1 quiet; (_, h) ← ftell g; some (s, h.sent)

ftell_sends : told ≡ some (97 ∷ [], 35 ∷ 97 ∷ 98 ∷ [])
unfolding fread refill ftell
ftell_sends = refl
