-- ===== src/Wire/Agreement.antt =====
-- The tables of the client (packet.cc) and of the server (EncryptDecrypt.cpp) against each other.
use order_sync.Base.{ℕ, ◌≡◌, refl, true, Bool, ◌&&◌, List, [], ◌∷◌, ltb, ltb→lt, arith}
use order_sync.Client.Tables.{encode_map, decode_map}
use order_sync.Server.Tables.{send_byte_map, recv_byte_map}
use order_sync.Wire.Cipher.{Inverse, IsTable, undoes, undoes-Inverse}

encode_recv : undoes encode_map recv_byte_map ≡ true
unfolding undoes encode_map recv_byte_map
encode_recv = refl

send_decode : undoes send_byte_map decode_map ≡ true
unfolding undoes send_byte_map decode_map
send_decode = refl

recv_encode : undoes recv_byte_map encode_map ≡ true
unfolding undoes encode_map recv_byte_map
recv_encode = refl

decode_send : undoes decode_map send_byte_map ≡ true
unfolding undoes send_byte_map decode_map
decode_send = refl

-- Every byte that one program substitutes with its sending table comes back through the other's
-- receiving table, in both directions, and the receiving tables lose nothing either.
pub tables_agree :
    Inverse encode_map recv_byte_map
    × Inverse send_byte_map decode_map
    × Inverse recv_byte_map encode_map
    × Inverse decode_map send_byte_map
tables_agree = (
  undoes-Inverse encode_map recv_byte_map encode_recv,
  undoes-Inverse send_byte_map decode_map send_decode,
  undoes-Inverse recv_byte_map encode_map recv_encode,
  undoes-Inverse decode_map send_byte_map decode_send,
)

all_bytes : List ℕ → Bool
all_bytes [] = true
all_bytes (x ∷ xs) = ltb x 256 && all_bytes xs

all_bytes_sound : (xs : List ℕ) → all_bytes xs ≡ true → IsTable xs
unfolding all_bytes
all_bytes_sound [] h = tt
all_bytes_sound (x ∷ xs) h =
    (ground (arith, h, ltb→lt x 256), all_bytes_sound xs (ground (arith, h)))

recv_bytes : all_bytes recv_byte_map ≡ true
unfolding all_bytes recv_byte_map
recv_bytes = refl

pub recv-IsTable : IsTable recv_byte_map
recv-IsTable = all_bytes_sound recv_byte_map recv_bytes
