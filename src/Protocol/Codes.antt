-- ===== src/Protocol/Codes.antt =====
-- The codes of the packet types tell them apart, and a header survives its bytes.
use custom_concurrent_tcp_pr.Prelude.{ℕ, ◌≡◌, refl, sym, ap, ◌∙◌, List, ◌++◌, some, arith}
use mathlib.Core.Option.{some-injective}
use custom_concurrent_tcp_pr.Protocol.{
  PacketType, to_code, of_code, PacketHeader, header_of, header_bytes,
}

-- The code of a packet type stands for that type.
pub of_code-to_code : (t : PacketType) → of_code (to_code t) ≡ some t
unfolding of_code to_code
of_code-to_code PacketType.req_ping = refl
of_code-to_code _ = refl

-- Two packet types with one code are the same type.
pub to_code_injective : (s t : PacketType) → to_code s ≡ to_code t → s ≡ t
to_code_injective s t e =
    some-injective _ _ (sym (of_code-to_code s) ∙ ap of_code e ∙ of_code-to_code t)

pub header_of-header_bytes :
    (h : PacketHeader) (rest : List ℕ) → header_of (header_bytes h ++ rest) ≡ h
unfolding header_of header_bytes
header_of-header_bytes h rest = ground arith
