-- ===== src/Network/Transport/Codec.antt =====
-- The length in front of a message.
use Prim.Native.Nat.{bit_or}
use edge_orchestrator_ai.Prelude.{ℕ, ◌+◌, ◌*◌, ◌/◌, ◌%◌, ◌^◌, ◌<◌, ◌≡◌, arith}
use edge_orchestrator_ai.Prelude.Bits.{bit_or-24, bit_or-16, bit_or-8}
use edge_orchestrator_ai.Network.Transport.{encode_u32, decode_u32}

-- Four bytes make the number that has them as digits.
join_bytes :
    (b0 b1 b2 b3 : ℕ)
    → b1 < 256
    → b2 < 256
    → b3 < 256
    → bit_or (bit_or (bit_or (b0 * 2 ^ 24) (b1 * 2 ^ 16)) (b2 * 2 ^ 8)) b3
      ≡ b0 * 2 ^ 24 + b1 * 2 ^ 16 + b2 * 2 ^ 8 + b3
join_bytes b0 b1 b2 b3 h1 h2 h3 =
    let first : b0 * 2 ^ 24 + b1 * 2 ^ 16 ≡ (b0 * 256 + b1) * 2 ^ 16 = omega arith in
    let second : (b0 * 256 + b1) * 2 ^ 16 + b2 * 2 ^ 8 ≡ (b0 * 65536 + b1 * 256 + b2) * 2 ^ 8 =
      omega arith in
    rw
      (
        bit_or-24 b0 (b1 * 2 ^ 16) (omega arith),
        first,
        bit_or-16 (b0 * 256 + b1) (b2 * 2 ^ 8) (omega arith),
        second,
        bit_or-8 (b0 * 65536 + b1 * 256 + b2) b3 (omega arith),
      )
      (omega arith)

pub decode_u32-encode_u32 : (val : ℕ) → val < 2 ^ 32 → decode_u32 (encode_u32 val) ≡ val
unfolding decode_u32 encode_u32
decode_u32-encode_u32 val h =
    rw
      (join_bytes (val / 2 ^ 24 % 256) (val / 2 ^ 16 % 256) (val / 2 ^ 8 % 256) (val % 256)
        (omega arith) (omega arith) (omega arith))
      (omega arith)
