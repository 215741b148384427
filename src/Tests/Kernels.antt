-- ===== src/Tests/Kernels.antt =====
-- A small kernel, on which the theorems about sockets and interfaces are run: a table of
-- descriptors, one queue of datagrams, how often a write is still refused, the flags of the
-- interfaces, and the commands that were run.
use canbus.Prelude.{
  ℕ, zero, suc, ◌+◌, ◌%◌, ◌≡◌, ◌≢◌, refl, sym, ◌∙◌, ap, arith, Bool, true, false, not, ◌&&◌, ◌||◌,
  List, [], ◌∷◌, ◌++◌, length, ◌==◌, if◌then◌else◌, Error, Result, ok, err, errno, Bool-cases, inl,
  inr,
}
use canbus.Kernel.{Kernel, HasDescriptors}
use canbus.SocketCan.Delivery.{Carries}
use canbus.Interface.Names.{c_string}
use canbus.Interface.Flags.{HasDevices}
use canbus.Interface.Commands.{same_text}

pub record Desk : Type 0 where
  pub table : ℕ → Bool
  pub next : ℕ
  pub busy : ℕ
  pub queue : List (List ℕ)
  pub devices : List ℕ → ℕ
  pub log : List (List (List ℕ))

-- The first three descriptors are taken.
abbrev pub desk : ℕ → Desk
desk busy = record {
  table = λ j. j == 0 || (j == 1 || j == 2);
  next = 3;
  busy = busy;
  queue = [];
  devices = λ name. 0x1002;
  log = [];
}

abbrev pub new_descriptor : Desk → Bool → Desk × Result ℕ
new_descriptor d true = (d, err (errno 24))
new_descriptor d false =
    (record d { table = λ j. d.table j || j == d.next; next = d.next + 1 }, ok d.next)

abbrev pub put_bytes : Desk → List ℕ → ℕ → Desk × Result ℕ
put_bytes d bytes zero = (record d { queue = d.queue ++ (bytes ∷ []) }, ok (length bytes))
put_bytes d bytes (suc busy) = (record d { busy = busy }, err (errno 11))

abbrev pub pop : Desk → List (List ℕ) → Desk × Result (List ℕ)
pop d [] = (d, err (errno 11))
pop d (bytes ∷ rest) = (record d { queue = rest }, ok bytes)

-- It refuses the size of a send buffer, as a kernel may.
abbrev pub small_kernel : Kernel Desk
small_kernel = record {
  socket = λ family type protocol d. new_descriptor d (d.table d.next);
  close = λ fd d. (record d { table = λ j. d.table j && not (j == fd) }, ok tt);
  set_option = λ fd level option value d. (d, if option == 7 then err (errno 22) else ok tt);
  interface_by_name = λ name d. (d, ok 3);
  bind = λ fd family index d. (d, ok tt);
  set_nonblock = λ fd d. (d, ok tt);
  write = λ fd bytes d. put_bytes d bytes d.busy;
  read = λ fd size d. pop d d.queue;
  pause = λ d. d;
  get_flags = λ fd name d. (d, ok (d.devices (c_string name)));
  set_flags = λ fd name flags d. (
    record d { devices = λ n. if same_text n (c_string name) then flags else d.devices n },
    ok tt,
  );
  exec = λ args d. (record d { log = d.log ++ (args ∷ []) }, ok tt);
}

abbrev pub is_open : Desk → ℕ → Bool
is_open d = d.table

fresh_lem :
    (d v : Desk) (fd : ℕ) (taken : Bool)
    → d.table d.next ≡ taken
    → new_descriptor d taken ≡ (v, ok fd)
    → (d.table fd ≡ false) × ((j : ℕ) → v.table j ≡ (d.table j || j == fd))
fresh_lem d v fd true t q = absurd (cc (ap (λ (r : Desk × Result ℕ). r.1) q))
fresh_lem d v fd false t q =
    let same : ◌≡◌ {A = Result ℕ} (ok d.next) (ok fd) = ap (λ (r : Desk × Result ℕ). r.1) q in
    let number : d.next ≡ fd = cc (same) in
    let world = ap (λ (r : Desk × Result ℕ). r.0) q in
    (
      ap d.table (sym number) ∙ t,
      λ j. ap (λ (u : Desk). u.table j) (sym world) ∙ ap (λ (n : ℕ). d.table j || j == n) number,
    )

full :
    (d v : Desk) (e : Error) (taken : Bool) (j : ℕ)
    → new_descriptor d taken ≡ (v, err e)
    → v.table j ≡ d.table j
full d v e true j q = ap (λ (r : Desk × Result ℕ). r.0.table j) (sym q)
full d v e false j q = absurd (cc (ap (λ (r : Desk × Result ℕ). r.1) q))

pub small_kernel-HasDescriptors : HasDescriptors small_kernel is_open
small_kernel-HasDescriptors = record {
  socket_fresh = λ family type protocol w v fd q. (fresh_lem w v fd (w.table w.next) refl q).0;
  socket_opens = λ family type protocol w v fd j q. (fresh_lem w v fd (w.table w.next) refl q).1 j;
  socket_fails = λ family type protocol w v e j q. full w v e (w.table w.next) j q;
  close_closes = λ fd w j. refl;
  option_keeps = λ fd level option value w j. refl;
  name_keeps = λ name w j. refl;
  bind_keeps = λ fd family index w j. refl;
  nonblock_keeps = λ fd w j. refl;
  get_keeps = λ fd name w j. refl;
  set_keeps = λ fd name flags w j. refl;
}

put_lem :
    (bytes : List ℕ) (d v : Desk) (n busy : ℕ)
    → put_bytes d bytes busy ≡ (v, ok n)
    → (n ≡ length bytes) × (v.queue ≡ d.queue ++ (bytes ∷ []))
put_lem bytes d v n zero q =
    let same : ◌≡◌ {A = Result ℕ} (ok (length bytes)) (ok n) =
      ap (λ (r : Desk × Result ℕ). r.1) q in
    (cc (same), ap (λ (r : Desk × Result ℕ). r.0.queue) (sym q))
put_lem bytes d v n (suc busy) q = absurd (cc (ap (λ (r : Desk × Result ℕ). r.1) q))

refused_lem :
    (bytes : List ℕ) (d v : Desk) (e : Error) (busy : ℕ)
    → put_bytes d bytes busy ≡ (v, err e)
    → v.queue ≡ d.queue
refused_lem bytes d v e zero q = absurd (cc (ap (λ (r : Desk × Result ℕ). r.1) q))
refused_lem bytes d v e (suc busy) q = ap (λ (r : Desk × Result ℕ). r.0.queue) (sym q)

abbrev pub waiting : Desk → List (List ℕ)
waiting d = d.queue

-- Any two of its descriptors share the queue.
pub small_kernel-Carries : Carries small_kernel waiting 3 4
small_kernel-Carries = record {
  write_queues = λ buf w v n l q. let (size, more) = put_lem buf w v n w.busy q in (size ∙ l, more);
  write_fails = λ buf w v e q. refused_lem buf w v e w.busy q;
  pause_keeps = λ w. refl;
  read_takes = λ w d rest q l. rw q (refl, refl);
}

same_text_lem : (xs ys : List ℕ) → same_text xs ys ≡ true → xs ≡ ys
same_text_lem [] [] e = refl
same_text_lem [] (y ∷ ys) e = absurd (cc (e))
same_text_lem (x ∷ xs) [] e = absurd (cc (e))
same_text_lem (x ∷ xs) (y ∷ ys) e =
    let first : x ≡ y = ground (arith, e) in
    let rest : same_text xs ys ≡ true = ground (arith, e) in cc (first, same_text_lem xs ys rest)

same_text_refl : (xs : List ℕ) → same_text xs xs ≡ true
same_text_refl [] = refl
same_text_refl (x ∷ xs) = ground (arith, same_text_refl xs)

other_text : (xs ys : List ℕ) → xs ≢ ys → same_text xs ys ≡ false
other_text xs ys ne = elim (Bool-cases (same_text xs ys)) [
  | inl e ↦ absurd (ne (same_text_lem xs ys e))
  | inr e ↦ e
]

pub small_kernel-HasDevices : HasDevices small_kernel (λ d. d.devices)
small_kernel-HasDevices = record {
  get_reads = λ fd request w v n q.
      let same : ◌≡◌ {A = Result ℕ} (ok (w.devices (c_string request))) (ok n) =
        ap (λ (r : Desk × Result ℕ). r.1) q in
      cc (same);
  get_keeps = λ fd request w. refl;
  set_sets = λ fd request asked w v u q.
      ap (λ (r : Desk × Result (Unit {0})). r.0.devices (c_string request) % 2) (sym q)
      ∙ rw (same_text_refl (c_string request)) refl;
  set_others = λ fd request asked w v u other q ne.
      ap (λ (r : Desk × Result (Unit {0})). r.0.devices other) (sym q)
      ∙ rw (other_text other (c_string request) ne) refl;
  set_fails =
      λ fd request asked w v e q. absurd (cc (ap (λ (r : Desk × Result (Unit {0})). r.1) q));
  socket_keeps = λ family type protocol w. same_devices w (w.table w.next);
  close_keeps = λ fd w. refl;
}
  where
    same_devices : (w : Desk) (taken : Bool) → (new_descriptor w taken).0.devices ≡ w.devices
    same_devices w true = refl
    same_devices w false = refl
