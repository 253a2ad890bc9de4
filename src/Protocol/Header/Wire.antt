-- ===== src/Protocol/Header/Wire.antt =====
-- Decoding a header inverts encoding it, and the errors of both.
use hislip.Prelude.{◌≡◌, refl, Bytes, ◌++◌, length, arith}
use hislip.Errors.{ok}
use hislip.Protocol.Header.{Header, IsHeader, header_size, decode_header, header_bytes}
use hislip.Protocol.Header.BigEndian.{put_be, get_be-put_be}

pub length-header_bytes : (h : Header) → length (header_bytes h) ≡ header_size
unfolding header_bytes put_be
length-header_bytes h = refl

-- A header whose fields fit their widths comes back from its sixteen bytes, whatever follows them.
pub decode-header_bytes :
    (h : Header) (rest : Bytes) → IsHeader h → decode_header (header_bytes h ++ rest) ≡ ok h
unfolding decode_header header_bytes put_be
decode-header_bytes h rest w = ground (arith, get_be-put_be 4 h.parameter, get_be-put_be 8 h.length)
