-- ===== src/Sdo/Abort.antt =====
-- sdo_abort.go: the table of texts and the text of an abort.
pub mod Reading
use canbus.Prelude.{ℕ, Bool, Option, none, some, List, [], ◌∷◌, ◌++◌, ◌==◌, if◌then◌else◌}
use canbus.Prelude.Texts.{codes, hex}

-- `sdoAbortText`
unfoldable pub sdo_abort_text : List (ℕ × List ℕ)
sdo_abort_text =
    (0x0503_0000, codes "toggle bit not alternated")
    ∷ (0x0504_0000, codes "SDO protocol timeout")
    ∷ (0x0504_0001, codes "command specifier invalid or unknown")
    ∷ (0x0601_0000, codes "unsupported access to object")
    ∷ (0x0601_0001, codes "attempt to read a write-only object")
    ∷ (0x0601_0002, codes "attempt to write a read-only object")
    ∷ (0x0602_0000, codes "object does not exist")
    ∷ (0x0604_0041, codes "object cannot be mapped to PDO")
    ∷ (0x0604_0042, codes "PDO length exceeded")
    ∷ (0x0604_0043, codes "general parameter incompatibility")
    ∷ (0x0604_0047, codes "internal incompatibility in device")
    ∷ (0x0606_0000, codes "hardware error")
    ∷ (0x0607_0010, codes "data type does not match (length)")
    ∷ (0x0607_0012, codes "data type does not match (length too high)")
    ∷ (0x0607_0013, codes "data type does not match (length too low)")
    ∷ (0x0609_0011, codes "sub-index does not exist")
    ∷ (0x0609_0030, codes "value range exceeded (min)")
    ∷ (0x0609_0031, codes "value range exceeded (max)")
    ∷ (0x0609_0036, codes "invalid value for parameter")
    ∷ (0x0800_0000, codes "general error")
    ∷ (0x0800_0020, codes "data cannot be transferred/stored")
    ∷ (0x0800_0021, codes "local control")
    ∷ (0x0800_0022, codes "device state")
    ∷ (0x0800_0023, codes "OD dynamic generation fails")
    ∷ []

unfoldable pub lookup : ℕ → List (ℕ × List ℕ) → Option (List ℕ)
lookup code [] = none
lookup code ((c, text) ∷ table) =
    let rest = lookup code table in if c == code then some text else rest

-- `: %s`, where the table has a text.
unfoldable pub explained : Option (List ℕ) → List ℕ
explained none = []
explained (some text) = codes ": " ++ text

-- `e.Error()`
unfoldable pub error_text : ℕ → ℕ → ℕ → List ℕ
unfolding sdo_abort_text lookup explained hex
error_text index subindex code =
    codes "canopen: sdo abort 0x"
    ++ (hex 8 code
        ++ (codes " @ "
            ++ (hex 4 index
                ++ (codes ":" ++ (hex 2 subindex ++ explained (lookup code sdo_abort_text))))))
