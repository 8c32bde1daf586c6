-- ===== src/Ports.antt =====
-- The source ports of senders: SourcePortAllocator of internal/netio/rawsock_linux.go.
pub mod Allocation
use gobfd.Common.{
  ℕ, zero, suc, ◌+◌, ◌-◌, ◌%◌, ◌^◌, ◌≡◌, List, [], ◌∷◌, Option, none, some, Bool, true, false, not,
  leb, if◌then◌else◌, length, Result, ok, err,
}
use gobfd.Assoc.{nat_key, lookup, insert, delete, is_some}

abbrev pub source_port_min : ℕ
source_port_min = 49152

abbrev pub source_port_max : ℕ
source_port_max = 65535

abbrev pub port_span : ℕ
port_span = source_port_max - source_port_min + 1

pub data PortError : Type 0 where
  port_exhausted random_failed : PortError

-- `portSpan` has the same value in every allocator.
pub record PortAllocator : Type 0 where
  pub in_use : List (ℕ × Unit {0})

unfoldable pub new_port_allocator : PortAllocator
new_port_allocator = record { in_use = [] }

-- `sourcePortMin + uint16((offset+i)%a.portSpan)`; the sum is a uint16.
abbrev pub port_at : ℕ → ℕ → ℕ
port_at offset i = (source_port_min + (offset + i) % port_span % 2 ^ 16) % 2 ^ 16

-- The loop, with the turns that are left and the number of this one.
unfoldable pub probe : ℕ → ℕ → ℕ → PortAllocator → PortAllocator × Result PortError ℕ
probe zero i offset a = (a, err port_exhausted)
probe (suc left) i offset a =
    let rest = probe left (i + 1) offset a in
    if not (is_some (lookup (port_at offset i) a.in_use))
    then (record { in_use = insert (port_at offset i) tt a.in_use }, ok (port_at offset i))
    else rest

abbrev pub from_offset : PortAllocator → Option ℕ → PortAllocator × Result PortError ℕ
from_offset a none = (a, err random_failed)
from_offset a (some offset) = probe port_span 0 offset a

-- The second argument is what `rand.Int` gave.
unfoldable pub allocate_port : PortAllocator → Option ℕ → PortAllocator × Result PortError ℕ
allocate_port a drawn =
    if leb port_span (length a.in_use) then (a, err port_exhausted) else from_offset a drawn

unfoldable pub release_port : ℕ → PortAllocator → PortAllocator
release_port port a = record { in_use = delete port a.in_use }
