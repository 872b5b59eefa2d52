-- ===== src/Ports.antt =====
-- The port accesses of hal/hal.h as a trace, the latest first. A device is what it answers to a
-- read: a function of the accesses before it and the port.
use frod.Base.{ℕ, List, [], ◌∷◌, u8, Option, none, some, ◌==◌, if◌then◌else◌, Bool, not, bit_and}

pub data Access : Type 0 where
  read : ℕ → ℕ → Access
  written : ℕ → ℕ → Access

abbrev pub Trace : Type 0
Trace = List Access

abbrev pub Device : Type 0
Device = Trace → ℕ → ℕ

unfoldable pub outb : ℕ → ℕ → Trace → Trace
outb port value tr = written port (u8 value) ∷ tr

-- `v & mask` as a condition.
abbrev pub is_set : ℕ → ℕ → Bool
is_set v mask = not (bit_and v mask == 0)

-- The trace and the byte.
unfoldable pub inb : Device → ℕ → Trace → Trace × ℕ
inb dev port tr = let value = u8 (dev tr port) in (read port value ∷ tr, value)

-- The latest byte that went to the port.
unfoldable pub latest : ℕ → Trace → Option ℕ
latest port [] = none
latest port (read p v ∷ tr) = latest port tr
latest port (written p v ∷ tr) = if p == port then some v else latest port tr

-- The bytes that went to the port, the latest first.
unfoldable pub sent : ℕ → Trace → List ℕ
sent port [] = []
sent port (read p v ∷ tr) = sent port tr
sent port (written p v ∷ tr) = if p == port then v ∷ sent port tr else sent port tr

-- What was written to `port` last, or 0.
unfoldable pub selected : ℕ → Trace → ℕ
selected port [] = 0
selected port (read p v ∷ tr) = selected port tr
selected port (written p v ∷ tr) = if p == port then v else selected port tr

-- Each value that was written to `port`, the latest first, behind what `select` held at that time.
unfoldable pub paired : ℕ → ℕ → Trace → List (ℕ × ℕ)
paired select port [] = []
paired select port (read p v ∷ tr) = paired select port tr
paired select port (written p v ∷ tr) =
    if p == port then (selected select tr, v) ∷ paired select port tr else paired select port tr
