-- ===== src/Tests/Bytes.antt =====
-- Examples for the pipe, the matcher of grep and the numbers of the user library.
use sistema_operativo.Base.{ℕ, ◌≡◌, ◌↔◌, true, false, List, [], ◌∷◌, ◌++◌, arith}
use sistema_operativo.Pipe.{Pipe, fresh}
use sistema_operativo.Pipe.Contents.{IsValid, contents}
use sistema_operativo.Pipe.Reading.{Op, write, read, traffic, traffic_fifo}
use sistema_operativo.Userlib.{atoi, printint}
use sistema_operativo.Userlib.Decimal.{atoi-printint}
use sistema_operativo.Grep.{match}
use sistema_operativo.Grep.Meaning.{Found, match_iff}

-- A pipe whose counters go round in the next bytes, with one byte in it.
abbrev pipe : Pipe
pipe = record (fresh (λ i. 7)) { nread = 0xfffffffe; nwrite = 0xffffffff }

pipe-IsValid : IsValid pipe
pipe-IsValid = record { read_word = omega arith; write_word = omega arith; room = omega arith }

abbrev calls : List Op
calls = write false (1 ∷ 2 ∷ []) ∷ read false 2 ∷ []

traffic_fifo_example :
    IsValid (traffic calls pipe).2
    × (contents pipe ++ (traffic calls pipe).0
        ≡ (traffic calls pipe).1 ++ contents (traffic calls pipe).2)
traffic_fifo_example = traffic_fifo calls pipe pipe-IsValid

abbrev pattern_ : List ℕ
pattern_ = b'a' ∷ b'*' ∷ b'b' ∷ b'$' ∷ []

abbrev text : List ℕ
text = b'c' ∷ b'a' ∷ b'a' ∷ b'b' ∷ []

match_iff_example : (match pattern_ text ≡ true) ↔ Found pattern_ text
match_iff_example = match_iff pattern_ text

atoi-printint_example : atoi (printint 1234 10 true) ≡ 1234
atoi-printint_example = atoi-printint 1234 true (omega arith)
