-- ===== src/Sdo/Abort/Reading.antt =====
-- What can be read back from the text of an abort.
use canbus.Prelude.{
  ℕ, suc, ◌^◌, ◌<◌, ◌≡◌, ◌∙◌, ap, arith, List, ◌++◌, length, take, drop, take-append, drop-append,
  IsU8, IsU16, IsU32,
}
use canbus.Prelude.Texts.{codes, hex}
use canbus.Prelude.Texts.Reading.{read_from, hex_reads}
use canbus.Sdo.Abort.{sdo_abort_text, lookup, explained, error_text}

-- The number of `n` digits at place `i` of a text.
abbrev pub hex_at : ℕ → ℕ → List ℕ → ℕ
hex_at i n text = read_from 16 0 (take n (drop i text))

hex_head :
    (w n : ℕ) (rest : List ℕ)
    → n < 16 ^ suc w
    → n < 16 ^ 8
    → (read_from 16 0 (take (suc w) (hex (suc w) n ++ rest)) ≡ n) × (length (hex (suc w) n) ≡ suc w)
hex_head w n rest h small =
    let (reads, long, ink) = hex_reads w n h small in
    (ap (read_from 16 0) (take-append (suc w) (hex (suc w) n) rest long) ∙ reads, long)

-- The text of an abort has the code in 8 hexadecimal digits at place 21, the index in 4 at place 32
-- and the subindex in 2 at place 37, so each can be read back, and behind them what the table says
-- of the code, if anything.
pub error_text_reads :
    (index subindex code : ℕ)
    → IsU16 index
    → IsU8 subindex
    → IsU32 code
    → let text = error_text index subindex code in
      (hex_at 21 8 text ≡ code)
      × (hex_at 32 4 text ≡ index)
      × (hex_at 37 2 text ≡ subindex)
      × (drop 39 text ≡ explained (lookup code sdo_abort_text))
unfolding error_text
error_text_reads index subindex code hi hs hc =
    let message = explained (lookup code sdo_abort_text) in
    let behind_index = codes ":" ++ (hex 2 subindex ++ message) in
    let behind_code = codes " @ " ++ (hex 4 index ++ behind_index) in
    let (code_reads, code_long) = hex_head 7 code behind_code (omega arith) (omega arith) in
    let (index_reads, index_long) = hex_head 3 index behind_index (omega arith) (omega arith) in
    let (sub_reads, sub_long) = hex_head 1 subindex message (omega arith) (omega arith) in
    let skip_code = λ (m : ℕ). drop-append 8 m (hex 8 code) behind_code code_long in
    let skip_index = λ (m : ℕ). drop-append 4 m (hex 4 index) behind_index index_long in
    (
      code_reads,
      ap (λ (t : List ℕ). read_from 16 0 (take 4 t)) (skip_code 3) ∙ index_reads,
      ap (λ (t : List ℕ). read_from 16 0 (take 2 t)) (skip_code 8 ∙ skip_index 1) ∙ sub_reads,
      skip_code 10 ∙ skip_index 3 ∙ drop-append 2 0 (hex 2 subindex) message sub_long,
    )
