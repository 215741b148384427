-- ===== src/Kernel.antt =====
-- The system calls that socketcan_linux.go and iface_linux.go make, as a parameter of the model,
-- and what they document of the table of descriptors.
use canbus.Prelude.{ℕ, ◌≡◌, Bool, false, not, ◌&&◌, ◌||◌, List, ◌==◌, Error, ok, err}
use canbus.Prelude.Runs.{Run}

-- Each call answers with a result of its own; an error is an `errno`, but for the look-up of a
-- name, whose error is one of package net. A text is a list of bytes.
pub record Kernel (W : Type 0) : Type 0 where
  -- `socket(family, type, protocol)`
  pub socket : ℕ → ℕ → ℕ → Run W ℕ
  pub close : ℕ → Run W (Unit {0})
  -- `setsockopt(fd, level, option, value)`, for an int.
  pub set_option : ℕ → ℕ → ℕ → ℕ → Run W (Unit {0})
  -- `net.InterfaceByName(name)`: the index.
  pub interface_by_name : List ℕ → Run W ℕ
  -- `bind(fd, address)` to the address of a family and an index.
  pub bind : ℕ → ℕ → ℕ → Run W (Unit {0})
  pub set_nonblock : ℕ → Run W (Unit {0})
  -- `write(fd, bytes)`: how many were written.
  pub write : ℕ → List ℕ → Run W ℕ
  -- `read(fd, buffer)`, for a buffer of that size: the bytes that were read.
  pub read : ℕ → ℕ → Run W (List ℕ)
  -- `select` on nothing for a millisecond.
  pub pause : W → W
  -- `ioctl(fd, SIOCGIFFLAGS, request)` and `ioctl(fd, SIOCSIFFLAGS, request)`, for a request with a
  -- name and flags.
  pub get_flags : ℕ → List ℕ → Run W ℕ
  pub set_flags : ℕ → List ℕ → ℕ → Run W (Unit {0})
  -- A command with its arguments, run to its end.
  pub exec : List (List ℕ) → Run W (Unit {0})

-- A call that opens and closes no descriptor.
abbrev pub KeepsOpen : {W A : Type 0} → (W → ℕ → Bool) → Run W A → Type 0
KeepsOpen {W} is_open m = (w : W) (j : ℕ) → is_open (m w).0 j ≡ is_open w j

-- What the calls document of the table of descriptors.
pub record HasDescriptors {W : Type 0} (k : Kernel W) (is_open : W → ℕ → Bool) : Type 0 where
  -- A socket is a descriptor that was not open, and a failure opens none.
  pub socket_fresh :
      (family type protocol : ℕ) (w v : W) (fd : ℕ)
      → k.socket family type protocol w ≡ (v, ok fd)
      → is_open w fd ≡ false
  pub socket_opens :
      (family type protocol : ℕ) (w v : W) (fd j : ℕ)
      → k.socket family type protocol w ≡ (v, ok fd)
      → is_open v j ≡ (is_open w j || j == fd)
  pub socket_fails :
      (family type protocol : ℕ) (w v : W) (e : Error) (j : ℕ)
      → k.socket family type protocol w ≡ (v, err e)
      → is_open v j ≡ is_open w j
  -- After close the descriptor is not open, also after an error.
  pub close_closes :
      (fd : ℕ) (w : W) (j : ℕ) → is_open (k.close fd w).0 j ≡ (is_open w j && not (j == fd))
  pub option_keeps :
      (fd level option value : ℕ) → KeepsOpen is_open (k.set_option fd level option value)
  pub name_keeps : (name : List ℕ) → KeepsOpen is_open (k.interface_by_name name)
  pub bind_keeps : (fd family index : ℕ) → KeepsOpen is_open (k.bind fd family index)
  pub nonblock_keeps : (fd : ℕ) → KeepsOpen is_open (k.set_nonblock fd)
  pub get_keeps : (fd : ℕ) (name : List ℕ) → KeepsOpen is_open (k.get_flags fd name)
  pub set_keeps :
      (fd : ℕ) (name : List ℕ) (flags : ℕ) → KeepsOpen is_open (k.set_flags fd name flags)
