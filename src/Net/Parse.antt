-- ===== src/Net/Parse.antt =====
-- The functions of src/net/mod.rs beside the header. `Ipv4Addr::from_str` of the standard library is an
-- argument: the address, or none.
use Prim.Native.String.{String}
use nperf.Base.{
  ℕ, ◌/◌, ◌%◌, ◌==◌, Bool, not, List, [], ◌∷◌, ◌++◌, Option, none, some, if◌then◌else◌, Outcome, ok,
  err, invalid_ipv4_address,
}

unfoldable pub parse_ipv4 : (String → Option ℕ) → String → Outcome ℕ
parse_ipv4 from_str adress = elim (from_str adress) [
  | some x ↦ ok x
  | none ↦ err invalid_ipv4_address
]

-- `flags & flag != 0`, for a flag of one bit.
unfoldable pub has_flag : ℕ → ℕ → Bool
has_flag flags flag = not (flags / flag % 2 == 0)

abbrev pub flag_warnings : List (ℕ × String)
flag_warnings =
    (8, "Control data truncated")
    ∷ (4, "Send without using routing tables")
    ∷ (128, "Terminates a record (if supported by the protocol)")
    ∷ (1, "Out-of-band data")
    ∷ (2, "Leave received data in queue")
    ∷ (32, "Normal data truncated")
    ∷ (256, "Attempt to fill the read buffer")
    ∷ []

unfoldable pub warnings_of : ℕ → List (ℕ × String) → List String
unfolding has_flag
warnings_of flags [] = []
warnings_of flags ((flag, warning) ∷ fs) =
    (if has_flag flags flag then warning ∷ [] else []) ++ warnings_of flags fs

-- The warnings it writes, with the flags' values of Linux.
unfoldable pub parse_msg_flags : ℕ → List String
unfolding warnings_of
parse_msg_flags flags = if flags == 0 then [] else warnings_of flags flag_warnings
