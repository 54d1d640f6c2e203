-- ===== src/FastFile/Tests.antt =====
-- A file in memory, and numbers written to it.
use bpf_program.Base.{ℕ, true, false, Option, some, ◌≡◌, refl, List, [], ◌∷◌, ◌++◌}
use bpf_program.Base.Int.{pos, negsuc}
use bpf_program.FastFile.{
  Stdio, digits, new, write_text, write_string, write_number, to_string, write_char,
}
use bpf_program.FastFile.Numbers.{IsStdio, read_numbers, write_all, read_numbers-write_all}

abbrev memory : Stdio (List ℕ)
memory = record {
  fopen_append = λ name w. (some 3, w);
  fseek_end = λ file w. w;
  fclose = λ file w. w;
  fputs = λ text file w. (true, w ++ text);
}

memory_opened :
    (w v : List ℕ) (file : ℕ) → ◌≡◌ {A = Option ℕ × List ℕ} (some 3, w) (some file, v) → v ≡ w
memory_opened w v file e = cc

abbrev memory-IsStdio : IsStdio memory
memory-IsStdio = record {
  content = λ file w. w;
  stored = λ name w. w;
  content-fopen = λ name w v file e. memory_opened w v file e;
  content-fseek = λ file w. refl;
  content-fputs = λ text file w e. refl;
}

written_run :
    (write_all memory (pos 120 ∷ negsuc 6 ∷ []) 3 []).1
    ≡ b'1' ∷ b'2' ∷ b'0' ∷ 10 ∷ b'-' ∷ b'7' ∷ 10 ∷ []
unfolding write_number write_string write_text to_string digits
written_run = refl

-- The character 0 is the end of its own text.
zero_run : (write_char memory 0 3 []).1 ≡ []
unfolding write_char write_text
zero_run = refl

written_good : (write_all memory (pos 120 ∷ negsuc 6 ∷ []) 3 []).0 ≡ true
unfolding write_number write_string write_text
written_good = refl

opened : new memory (b'x' ∷ []) [] ≡ some (3, [])
unfolding new
opened = refl

read_numbers-write_all_example :
    read_numbers false 0
      (memory-IsStdio.content 3 (write_all memory (pos 120 ∷ negsuc 6 ∷ []) 3 []).1)
    ≡ pos 120 ∷ negsuc 6 ∷ []
read_numbers-write_all_example =
    read_numbers-write_all memory memory-IsStdio (b'x' ∷ []) (pos 120 ∷ negsuc 6 ∷ []) 3 [] []
      opened refl written_good
