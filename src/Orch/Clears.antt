-- ===== src/Orch/Clears.antt =====
-- estop_service.cpp: the counter of the clears, in its file and at the nodes.
use powersuit.Base.{
  ℕ, zero, suc, ◌+◌, ◌≤◌, ◌<◌, ◌^◌, ◌≡◌, ◌≢◌, refl, sym, ap, subst, ◌∙◌, arith, true, Option, none,
  some, List, [], ◌∷◌, ◌++◌, IsU32, u16, u32,
}
use powersuit.CanId.{CanFrame, id_type, t_clear_estop}
use powersuit.Wire.{clear_estop_magic}
use powersuit.Wire.SafetyPayloads.{
  ClearEstop, write_clear_estop, read_clear_estop, read-write_clear_estop,
}
use powersuit.Safety.{Core, on_clear}
use powersuit.SafetyNode.{Node, safety_rx}
use powersuit.SpiFrame.{Record}
use powersuit.Gateway.{frame_of}
use powersuit.Orch.{
  Files, Service, safety_record, disengage, load_and_bump_counter, save_counter, last_counter,
  engage, stop_records,
}
use powersuit.Orch.Process
use powersuit.Orch.Process.{
  Process, Polled, ProcessEvent, run, transport_round, on_engage, on_disengage, on_command, on_link,
  on_round,
}
use powersuit.Orch.Beats
use powersuit.Orch.Stops.{safety_record_type, frame_of_id}

-- What the code relies on: a number that is written is read again, and making directories leaves the files.
pub record Laws {S A : Type 0} (k : Files S A) : Type 0 where
  pub kept : (s : S) (p : A) (n : ℕ) (s' : S) → k.write s p n ≡ some s' → k.read s' p ≡ some n
  pub parents : (s : S) (p q : A) → k.read (k.make_parents s p) q ≡ k.read s q

-- The file can be opened for writing, at any time.
abbrev pub CanWrite : {S A : Type 0} → Files S A → A → Type 0
CanWrite {S} k p = (s : S) (n : ℕ) → k.write s p n ≢ none

-- How many of the events release a stop.
abbrev pub releases : List ProcessEvent → ℕ
releases [] = 0
releases (on_disengage ∷ es) = 1 + releases es
releases (on_engage uptime ∷ es) = releases es
releases (on_command rs ∷ es) = releases es
releases (on_link up ∷ es) = releases es
releases (on_round p rx ∷ es) = releases es

-- The clear with this counter that the orchestrator sends.
abbrev pub clear_record : ℕ → Record
clear_record counter =
    safety_record t_clear_estop 0
      (write_clear_estop (record { magic = clear_estop_magic; counter = counter }))

-- A node that hears the record at `t` takes it as a clear with this counter, and accepts it.
abbrev pub Accepts : Node → ℕ → Record → ℕ → Type 0
Accepts m t r counter =
    ((safety_rx m t (frame_of r)).0.core ≡ (on_clear m.core t clear_estop_magic counter).0)
    × ((on_clear m.core t clear_estop_magic counter).1 ≡ true)
    × ((safety_rx m t (frame_of r)).0.core.clear_counter ≡ counter)

on_clear_takes :
    (c : Core) (t counter : ℕ)
    → c.clear_counter < counter
    → ((on_clear c t clear_estop_magic counter).1 ≡ true)
      × ((on_clear c t clear_estop_magic counter).0.clear_counter ≡ counter)
unfolding on_clear
on_clear_takes c t counter h = ground arith

rx_clear :
    (m : Node) (t : ℕ) (f : CanFrame) (c : ClearEstop)
    → id_type f.id ≡ t_clear_estop
    → read_clear_estop f.payload ≡ c
    → (safety_rx m t f).0.core ≡ (on_clear m.core t c.magic c.counter).0
unfolding safety_rx
rx_clear m t f c e p = rw (e, p) refl

Accepts-newer :
    (m : Node) (t counter : ℕ)
    → IsU32 counter
    → m.core.clear_counter < counter
    → Accepts m t (clear_record counter) counter
unfolding frame_of
Accepts-newer m t counter u h =
    let c : ClearEstop = record { magic = clear_estop_magic; counter = counter } in
    let (back, eight) = read-write_clear_estop c (omega arith, u) in
    let (type, fits) =
      safety_record_type t_clear_estop 0 (write_clear_estop c) (omega arith) (omega arith) eight in
    let (yes_, counted) = on_clear_takes m.core t counter h in
    let heard =
      rx_clear m t (frame_of (clear_record counter)) c
        (ap id_type (frame_of_id (clear_record counter) fits) ∙ type) back in
    (heard, yes_, ap (λ (x : Core). x.clear_counter) heard ∙ counted)

module _ {S A : Type 0} (k : Files S A) (l : Laws k) where
  -- The number in the file of the process, and the one that its next clear carries.
  abbrev pub saved : Process S A → ℕ
  saved o = last_counter k o.files o.service.counter_path

  abbrev pub next_clear : Process S A → Record
  next_clear o = (disengage k o.files o.service).2

  save_keeps :
      (s : S) (p : A) (n : ℕ)
      → CanWrite k p
      → ((save_counter k s p n).1 ≡ p) × (k.read (save_counter k s p n).0 p ≡ some n)
  unfolding save_counter
  save_keeps s p n can = go (k.write s p n) refl
    where
      go :
          (w : Option S)
          → k.write s p n ≡ w
          → ((save_counter k s p n).1 ≡ p) × (k.read (save_counter k s p n).0 p ≡ some n)
      go none e = absurd (can s n e)
      go (some s') e = rw (save_counter, e) (refl, l.kept s p n s' e)

  disengage_saves :
      (o : Process S A)
      → CanWrite k o.service.counter_path
      → let o' = Process.step k o on_disengage in
        (o'.service.counter_path ≡ o.service.counter_path) × (saved o' ≡ u32 (saved o + 1))
  unfolding Process.step disengage load_and_bump_counter
  disengage_saves o can =
      let path = o.service.counter_path in
      let s = k.make_parents o.files path in
      let (same, back) = save_keeps s path (u32 (saved o + 1)) can in
      (
        same,
        ap (last_counter k (save_counter k s path (u32 (saved o + 1))).0) same
            ∙ ap (λ (r : Option ℕ). elim r [ none ↦ 0 | some n ↦ n ]) back,
      )

  -- A step that leaves the file and its path.
  Same : Process S A → Process S A → Type 0
  Same o o' = (o'.service.counter_path ≡ o.service.counter_path) × (saved o' ≡ saved o)

  alike :
      (o o' : Process S A)
      → o'.files ≡ o.files
      → o'.service.counter_path ≡ o.service.counter_path
      → Same o o'
  unfolding Same
  alike o o' f p =
      (p, ap (λ s. last_counter k s o'.service.counter_path) f ∙ ap (last_counter k o.files) p)

  stop_path :
      (n : ℕ) (uptime : ℕ → ℕ) (v : Service A)
      → (stop_records n uptime v).0.counter_path ≡ v.counter_path
  unfolding stop_records
  stop_path zero uptime v = refl
  stop_path (suc n) uptime v = stop_path n uptime (record v { seq = u16 (v.seq + 1) })

  engage-Same : (o : Process S A) (uptime : ℕ → ℕ) → Same o (Process.step k o (on_engage uptime))
  unfolding Process.step engage
  engage-Same o uptime =
      alike o (Process.step k o (on_engage uptime)) refl (stop_path 3 uptime o.service)

  transport_round-Same :
      (o : Process S A) (p : Polled) (rx : Option (List ℕ))
      → Same o (Process.step k o (on_round p rx))
  unfolding Process.step
  transport_round-Same o p rx =
      let (_, v, f, _) = Beats.transport_round-Same o p rx in
      alike o (Process.step k o (on_round p rx)) f (ap (λ (w : Service A). w.counter_path) v)

  -- The file holds what it held, and one more for each release.
  Counts : Process S A → ℕ → Process S A → Type 0
  Counts o n o' = (o'.service.counter_path ≡ o.service.counter_path) × (saved o' ≡ saved o + n)

  saved_after :
      (o : Process S A) (es : List ProcessEvent)
      → CanWrite k o.service.counter_path
      → saved o + releases es < 2 ^ 32
      → Counts o (releases es) (run k o es)
  unfolding run Counts Same
  saved_after o [] can small = (refl, omega arith)
  saved_after o (on_disengage ∷ es) can small =
      let (same, more) = disengage_saves o can in
      let (p, n) =
        saved_after (Process.step k o on_disengage) es (subst (CanWrite k) (sym same) can)
          (omega (arith, more, small)) in
      (p ∙ same, omega (arith, n, more, small))
  saved_after o (on_engage uptime ∷ es) can small =
      let (same, kept) = engage-Same o uptime in
      let (p, n) =
        saved_after (Process.step k o (on_engage uptime)) es (subst (CanWrite k) (sym same) can)
          (omega (arith, kept, small)) in
      (p ∙ same, omega (arith, n, kept))
  saved_after o (on_command rs ∷ es) can small =
      saved_after (record o { outbound = o.outbound ++ rs }) es can small
  saved_after o (on_link up ∷ es) can small = saved_after (record o { cloud_up = up }) es can small
  saved_after o (on_round p rx ∷ es) can small =
      let (same, kept) = transport_round-Same o p rx in
      let (q, n) =
        saved_after (Process.step k o (on_round p rx)) es (subst (CanWrite k) (sym same) can)
          (omega (arith, kept, small)) in
      (q ∙ same, omega (arith, n, kept))

  -- For a file system that keeps what is written, a counter file that can be written at any time, and a number that does not go
  -- round: when `o` releases a stop, its clear has the number after that in the file. When any events follow, and `again` is the
  -- same process, or another on the files that they leave and with the same path, every node whose counter is at most that of the
  -- first clear accepts the clear that `again` sends next, at any time.
  pub clears_increase :
      (o : Process S A) (es : List ProcessEvent) (again : Process S A) (m : Node) (t : ℕ)
      → CanWrite k o.service.counter_path
      → saved o + 2 + releases es < 2 ^ 32
      → again.files ≡ (run k (Process.step k o on_disengage) es).files
      → again.service.counter_path ≡ o.service.counter_path
      → m.core.clear_counter ≤ saved o + 1
      → (next_clear o ≡ clear_record (saved o + 1))
        × Accepts m t (next_clear again) (saved o + 2 + releases es)
  unfolding disengage load_and_bump_counter Counts
  clears_increase o es again m t can small files path old =
      let (same, more) = disengage_saves o can in
      let first = Process.step k o on_disengage in
      let (p, n) =
        saved_after first es (subst (CanWrite k) (sym same) can) (omega (arith, more, small)) in
      let number : u32 (saved o + 1) ≡ saved o + 1 = omega (arith, small) in
      let held : saved again ≡ saved (run k first es) =
        ap (λ s. last_counter k s again.service.counter_path) files
        ∙ ap (last_counter k (run k first es).files) (path ∙ sym (p ∙ same)) in
      let next : u32 (saved again + 1) ≡ saved o + 2 + releases es =
        omega (arith, held, n, more, small) in
      (
        ap clear_record number,
        subst (λ c. Accepts m t (clear_record c) (saved o + 2 + releases es)) (sym next)
            (Accepts-newer m t (saved o + 2 + releases es) (omega (arith, small))
              (omega (arith, old))),
      )
