-- ===== src/Handler/Tests.antt =====
-- The handler of include/iec_core/handlers/number_crusher.h at two buffers of one frame each, as
-- the sample count starts again at 0.
use bpf_program.Base.{ℕ, ◌↔◌, refl, arith, List, [], ◌∷◌, ◌++◌, take}
use bpf_program.Base.Int.{ℤ}
use bpf_program.Bytes.{little_endian, big_endian}
use bpf_program.Buffer.{StaticBuffer}
use bpf_program.Asdu.{Asdu}
use bpf_program.Parser.Encode.{Frame, encode_frames}
use bpf_program.Parser.Tests.{asdu, id, frame}
use bpf_program.Validator as Validator
use bpf_program.Validator.{initial}
use bpf_program.Validator.Chain.{Fits}
use bpf_program.Processing.Tests.{int_float}
use bpf_program.Handler.{NumberCrusher, IsOn, crush_all}
use bpf_program.Handler.Refine.{IsFilled}
use bpf_program.Handler.Gapless.{crush_all-Fits}
use bpf_program.Handler.Total.{IsReceived, IsCrusher, Keeps, crush_all-Keeps}

abbrev pub asdu_at : ℕ → Asdu
asdu_at n = record asdu { smp_cnt = n }

abbrev pub frame_at : ℕ → Frame
frame_at n = record frame { samples = record { sv_id = id; asdu = asdu_at n } ∷ [] }

abbrev buffer_at : ℕ → StaticBuffer
buffer_at n = record {
  bytes = encode_frames (frame_at n ∷ []) ++ (0 ∷ []);
  offset = 0;
  written = 126;
}

last-IsFilled : IsFilled (frame_at 3999 ∷ []) (buffer_at 3999)
last-IsFilled = record {
  rest = 0 ∷ [];
  content = refl;
  room = omega arith;
  start = refl;
  filled = refl;
  small = omega arith;
  bytes = omega arith;
  valid = omega arith;
}

first-IsFilled : IsFilled (frame_at 0 ∷ []) (buffer_at 0)
first-IsFilled = record {
  rest = 0 ∷ [];
  content = refl;
  room = omega arith;
  start = refl;
  filled = refl;
  small = omega arith;
  bytes = omega arith;
  valid = omega arith;
}

abbrev groups : List (List Frame)
groups = (frame_at 3999 ∷ []) ∷ (frame_at 0 ∷ []) ∷ []

abbrev buffers : List StaticBuffer
buffers = buffer_at 3999 ∷ buffer_at 0 ∷ []

abbrev crusher : NumberCrusher ℤ
crusher = record {
  parser = record { buffer = buffer_at 0; sequence = []; frame_length = 0 };
  digest = record { validator = Validator.new; points = []; count = 1; printed = [] };
}

crush_all-Fits_example :
    IsOn (crush_all int_float big_endian buffers crusher)
    ↔ Fits initial 0 (asdu_at 3999 ∷ asdu_at 0 ∷ [])
crush_all-Fits_example =
    crush_all-Fits int_float big_endian groups buffers crusher refl refl tt (tt, (tt, tt))
      (last-IsFilled, (first-IsFilled, tt))

-- The first bytes of a frame, and others behind them.
abbrev damaged : StaticBuffer
damaged = record { bytes = take 40 (buffer_at 0).bytes ++ (255 ∷ 7 ∷ []); offset = 0; written = 41 }

whole-IsReceived : IsReceived (buffer_at 3999)
whole-IsReceived = record { bytes = omega arith; small = omega arith }

damaged-IsReceived : IsReceived damaged
damaged-IsReceived = record { bytes = omega arith; small = omega arith }

crusher-IsCrusher : IsCrusher int_float crusher
crusher-IsCrusher = record {
  sequence = refl;
  digest = record { validator = ground arith; points = tt; few = omega arith; count = omega arith };
}

crush_all-Keeps_example :
    Keeps int_float
      (IsCrusher int_float)
      (crush_all int_float little_endian (buffer_at 3999 ∷ damaged ∷ []) crusher)
crush_all-Keeps_example =
    crush_all-Keeps int_float little_endian (buffer_at 3999 ∷ damaged ∷ []) crusher
      (whole-IsReceived, (damaged-IsReceived, tt)) crusher-IsCrusher
