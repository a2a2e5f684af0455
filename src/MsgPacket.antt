-- ===== src/MsgPacket.antt =====
-- `MsgPacket` of socket_manager/socket_object.h: an outgoing message, cut from the front as it is
-- sent. What cannot be computed without undefined behaviour is `none`.
pub mod Laws
use mathlib.Core.Option
use light_server.Base.{
  ◌==◌, ℕ, ◌+◌, ◌-◌, ◌*◌, ◌%◌, Bool, ◌&&◌, Option, none, some, List, [], leb, if◌then◌else◌, length,
  take, drop,
}
use light_server.Common.{Sockaddr, int_mod, is_positive, int_lt}

-- A pointer field: not assigned yet, `nullptr`, or so many bytes behind `payload`.
pub data Cursor : Type 0 where
  unset null : Cursor
  offset : ℕ → Cursor

pub record MsgPacket : Type 0 where
  pub payload : Option (List ℕ)
  pub begin : Cursor
  pub finish : Cursor
  pub pkg_length : ℕ
  pub pos : ℕ
  pub saddr : Option Sockaddr

-- MAX_SIZE_OF_MSG_PACKET
abbrev pub max_size_of_packet : ℕ
max_size_of_packet = 1024 * 1024 * 16

-- `memcpy` from a buffer of the caller: reading past its end is undefined.
abbrev pub memcpy : List ℕ → ℕ → Option (List ℕ)
memcpy buf n = if leb n (length buf) then some (take n buf) else none

-- A packet without bytes: the constructors leave `begin` and `end` as they were in memory.
abbrev pub hollow : MsgPacket
hollow = record {
  payload = none;
  begin = Cursor.unset;
  finish = Cursor.unset;
  pkg_length = 0;
  pos = 0;
  saddr = none;
}

-- The test of both constructors; `nbytes` is an `int32_t`.
abbrev pub fits : ℕ → Bool
fits nbytes = is_positive nbytes && int_lt nbytes max_size_of_packet

abbrev pub filled : ℕ → Option Sockaddr → List ℕ → MsgPacket
filled nbytes saddr bytes = record {
  payload = some bytes;
  begin = Cursor.offset 0;
  finish = Cursor.offset nbytes;
  pkg_length = nbytes;
  pos = 0;
  saddr = saddr;
}

-- `MsgPacket(int32_t, void*)`
unfoldable pub make : ℕ → List ℕ → Option MsgPacket
make nbytes buf =
    if fits nbytes then Option.map (filled nbytes none) (memcpy buf nbytes) else some hollow

-- `MsgPacket(int32_t, void*, sockaddr*)`
unfoldable pub make_udp : ℕ → List ℕ → Sockaddr → Option MsgPacket
make_udp nbytes buf to =
    if fits nbytes then Option.map (filled nbytes (some to)) (memcpy buf nbytes) else some hollow

-- The pointer difference `e - b`, as an `int32_t`: of unassigned pointers it is undefined.
abbrev pub distance : Cursor → Cursor → Option ℕ
distance (Cursor.offset b) (Cursor.offset e) = some ((e + int_mod - b) % int_mod)
distance Cursor.null Cursor.null = some 0
distance _ _ = none

unfoldable pub size : MsgPacket → Option ℕ
size p = distance p.begin p.finish

-- `begin += n`
abbrev pub advance : Cursor → ℕ → Option Cursor
advance (Cursor.offset b) n = some (Cursor.offset (b + n))
advance Cursor.null n = if n == 0 then some Cursor.null else none
advance Cursor.unset n = none

abbrev pub move_begin : MsgPacket → ℕ → Option MsgPacket
move_begin p n = Option.map (λ b. record p { begin = b }) (advance p.begin n)

-- `Reduce`, behind its assertion that `length` is not negative: it never goes past the end.
unfoldable pub reduce : MsgPacket → ℕ → Option MsgPacket
unfolding size
reduce p length = elim (size p) [
  | none ↦ none
  | some n ↦ move_begin p (if int_lt length n then length else n)
]

-- The bytes from `Ptr()` on: what `Size()` of them hold.
abbrev pub window : Option (List ℕ) → Cursor → ℕ → Option (List ℕ)
window (some bytes) (Cursor.offset b) n = memcpy (drop b bytes) n
window _ _ n = if n == 0 then some [] else none

unfoldable pub unsent : MsgPacket → Option (List ℕ)
unfolding size
unsent p = elim (size p) [ none ↦ none | some n ↦ window p.payload p.begin n ]

-- `Dispose`
unfoldable pub dispose : MsgPacket → MsgPacket
dispose p = record p {
  payload = none;
  pkg_length = 0;
  pos = 0;
  begin = Cursor.null;
  finish = Cursor.null;
}
