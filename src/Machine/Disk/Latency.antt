-- ===== src/Machine/Disk/Latency.antt =====
-- How long a request to the disk of machine/disk.cc takes.
use cmps.Prelude.{
  ℕ, ◌+◌, ◌-◌, ◌*◌, ◌/◌, ◌%◌, ◌<◌, ◌≤◌, ◌≡◌, refl, Bool, true, false, ◌&&◌, ltb, ◌==◌,
  if◌then◌else◌, arith, ltb→lt,
}
use cmps.Machine.Disk.{Disk, seek_of, time_to_seek, modulo_diff, compute_latency}

-- Between two times the head rotates past all of a sector, which begins at time `head`.
pub record Passes (sector start end : ℕ) : Type 0 where
  pub head : ℕ
  pub after : start ≤ head
  pub border : head % 500 ≡ 0
  pub there : head / 500 % 32 ≡ sector % 32
  pub before : head + 500 ≤ end

pub time_to_seek_lem :
    (d : Disk) (now s : ℕ)
    → (let r = time_to_seek d now s in
        (r.0 ≡ seek_of d s) × (r.1 < 500) × ((now + seek_of d s + r.1) % 500 ≡ 0))
unfolding time_to_seek
time_to_seek_lem d now s = (refl, ground arith, ground arith)

modulo_diff_lem :
    (to from : ℕ) → (modulo_diff to from < 32) × ((from + modulo_diff to from) % 32 ≡ to % 32)
unfolding modulo_diff
modulo_diff_lem to from = (omega arith, omega arith)

modulo_diff-first : (to from q : ℕ) → from ≤ q → q % 32 ≡ to % 32 → from + modulo_diff to from ≤ q
unfolding modulo_diff
modulo_diff-first to from q l e = omega (arith, l, e)

-- A request that takes `latency`: it ends when the head has rotated past the sector for the first time after
-- the seek, or a read gets the sector from the track buffer.
pub data Latency (d : Disk) (now sector : ℕ) (writing : Bool) (latency : ℕ) : Type 0 where
  rotated :
      Passes sector (now + seek_of d sector) (now + latency)
      → ((end : ℕ) → Passes sector (now + seek_of d sector) end → now + latency ≤ end)
      → Latency d now sector writing latency
  buffered :
      writing ≡ false
      → seek_of d sector ≡ 0
      → latency ≡ 500
      → Passes sector d.buffer_init (now + 500)
      → Latency d now sector writing latency

rotated_after :
    (d : Disk) (now s : ℕ) (writing : Bool)
    → (let r = time_to_seek d now s in
        let time_after = now + r.0 + r.1 in
        Latency d now s writing (r.0 + (r.1 + modulo_diff s (time_after / 500) * 500) + 500))
rotated_after d now s writing =
    let sought = time_to_seek_lem d now s in
    let r = time_to_seek d now s in
    let q = (now + r.0 + r.1) / 500 in
    let turn = modulo_diff_lem s q in
    let begin = (q + modulo_diff s q) * 500 in
    rotated
      (record {
        head = begin;
        after = omega (arith, sought.0, sought.1, sought.2);
        border = omega arith;
        there = omega (arith, turn.0, turn.1);
        before = omega (arith, sought.0, sought.1, sought.2);
      })
      (λ end p.
        let least =
          modulo_diff-first s q (p.head / 500)
            (omega (arith, sought.0, sought.1, sought.2, p.after, p.border)) p.there in
        omega (arith, sought.0, sought.1, sought.2, p.before, p.border, least))

from_buffer :
    (d : Disk) (now s : ℕ)
    → d.buffer_init % 500 ≡ 0
    → (let r = time_to_seek d now s in
        seek_of d s ≡ 0
        → modulo_diff s (d.buffer_init / 500) < (now + r.0 + r.1 - d.buffer_init) / 500
        → Latency d now s false 500)
from_buffer d now s aligned still passed =
    let sought = time_to_seek_lem d now s in
    let q = d.buffer_init / 500 in
    let turn = modulo_diff_lem s q in
    buffered refl still refl (record {
      head = (q + modulo_diff s q) * 500;
      after = omega (arith, aligned);
      border = omega arith;
      there = omega (arith, turn.0, turn.1);
      before = omega (arith, aligned, passed, still, sought.0, sought.1, sought.2);
    })

-- One of two times, whichever is taken.
either {ℓ} :
    (P : ℕ → Type ℓ) (b c : Bool) (x y : ℕ)
    → (b ≡ true → c ≡ true → P x)
    → P y
    → P (if b && c then x else y)
either P true true x y first second = first refl refl
either P true false x y first second = second
either P false c x y first second = second

-- Where the track buffer began at the border of a sector: ComputeLatency gives the time until the head
-- has rotated past all of the sector for the first time after the seek; or, for a read without a seek,
-- the 500 ticks of one sector, and the head rotates past all of the sector between the start of the
-- track buffer and the end of the request.
pub compute_latency_lem :
    (d : Disk) (now sector : ℕ) (writing : Bool)
    → d.buffer_init % 500 ≡ 0
    → Latency d now sector writing (compute_latency d now sector writing)
unfolding compute_latency
compute_latency_lem d now s true aligned = rotated_after d now s true
compute_latency_lem d now s false aligned =
    let r = time_to_seek d now s in
    let time_after = now + r.0 + r.1 in
    either (Latency d now s false) (r.0 == 0)
      (ltb (modulo_diff s (d.buffer_init / 500)) ((time_after - d.buffer_init) / 500)) 500
      (r.0 + (r.1 + modulo_diff s (time_after / 500) * 500) + 500)
      (λ still passed.
        from_buffer d now s aligned (ground (arith, still, time_to_seek_lem d now s))
          (ltb→lt _ _ passed))
      (rotated_after d now s false)
