-- ===== src/Protocol/Order.antt =====
-- Network byte order.
use diarkis.Base.{ℕ, ◌<◌, ◌^◌, ◌≡◌, refl, length, arith}
use diarkis.Protocol.{htonl, ntohl}

-- ntohl undoes htonl on 32 bits.
pub ntohl-htonl : (n : ℕ) → n < 2 ^ 32 → ntohl (htonl n) ≡ n
unfolding ntohl htonl
ntohl-htonl n lt = omega arith

pub length-htonl : (n : ℕ) → length (htonl n) ≡ 4
unfolding htonl
length-htonl n = refl
