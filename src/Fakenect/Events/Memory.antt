-- ===== src/Fakenect/Events/Memory.antt =====
-- The memory of `fakenect_process_events` in libfreenect/src/fakenect.c: the recorded data is freed.
use quartz_composer_open_kin.Fakenect.{Host, Globals}
use quartz_composer_open_kin.Fakenect.Events.{dispatch, fake_process_events}
use quartz_composer_open_kin.Fakenect.Index.{
  Event, read_data, event_of, parse_line, one_line, open_index,
}
use quartz_composer_open_kin.Memory.{Heap, malloc, memcpy, free}
use quartz_composer_open_kin.Memory.Bytes.{SameShape, SameShape-trans}
use quartz_composer_open_kin.Memory.Kept.{
  memcpy-SameShape, free-room, free-others, malloc-some, malloc-none, malloc-SameShape, memcpy-null,
  some-is,
}
use quartz_composer_open_kin.Prelude.{
  ℕ, ◌+◌, ◌≡◌, false, Option, none, some, List, ◌∷◌, ◌++◌, arith, length, replicate, inl, inr,
  Bool-cases, Option-cases, ==_iff, ◌==◌, if◌then◌else◌, >>=-eq_some, ◌>>=◌, ◌∙◌, sym, ap, ℤ, pos,
  negsuc, is_some, length-replicate,
}
use quartz_composer_open_kin.Stream.Buffers.Laws.{IsFresh}
use quartz_composer_open_kin.Fakenect.Events.Kept.{Keeps, Keeps-refl, dispatch-Keeps}

-- What reading an event's file leaves: nothing taken where it failed, and else one block with the data.
abbrev Opened : Heap → Option Event → Heap → Type 0
Opened h none h' = Keeps h h'
Opened h (some e) h' =
    SameShape h h'
    × (h.block e.image_block ≡ none)
    × ((c : List ℕ) × (h'.block e.image_block ≡ some c) × (h'.room + length c ≡ h.room))

malloc-room : (n : ℕ) (h : Heap) → n ≡ 0 → (malloc n h).1.room ≡ h.room
malloc-room n h z = elim (Option-cases (malloc n h).0) [
  | inl m ↦ ap (λ h. h.room) (malloc-none n h m)
  | inr (p, m) ↦ (let (_, _, room, _) = malloc-some n h p m in omega (arith, room, z))
]

read_data-Opened :
    (name : ℕ × ℕ) (bytes : List ℕ) (h h' : Heap) (o : Option Event)
    → IsFresh h
    → read_data name bytes h ≡ some (o, h')
    → Opened h o h'
read_data-Opened (code, timestamp) bytes h h' o fresh e = elim (Bool-cases (length bytes == 0)) [
  | inl z ↦
      (let same = some-is (rw z at e) in
        rw (← ap (λ r. r.0) same, ← ap (λ r. r.1) same)
          (
            malloc-SameShape (length bytes) h fresh,
            malloc-room (length bytes) h ((==_iff (length bytes) 0).0 z),
          ))
  | inr z ↦ elim (Option-cases (malloc (length bytes) h).0) [
    | inl m ↦ absurd (none-some (rw (z, m, memcpy-null 0 bytes (malloc (length bytes) h).1) at e))
    | inr (p, m) ↦
        (let (h₂, f, k) =
            >>=-eq_some (memcpy (some p) 0 bytes (malloc (length bytes) h).1) _ (rw (z, m) at e) in
          let same = some-is k in rw (← ap (λ r. r.0) same, ← ap (λ r. r.1) same) (read p h₂ m f))
  ]
]
  where
    none-some : ◌≡◌ {A = Option (Option Event × Heap)} none (some (o, h')) → ⊥
    none-some f = ground arith

    read :
        (p : ℕ) (h₂ : Heap)
        → (malloc (length bytes) h).0 ≡ some p
        → memcpy (some p) 0 bytes (malloc (length bytes) h).1 ≡ some h₂
        → SameShape h h₂
          × (h.block p ≡ none)
          × ((c : List ℕ) × (h₂.block p ≡ some c) × (h₂.room + length c ≡ h.room))
    read p h₂ m f =
        let (own, given, room, _) = malloc-some (length bytes) h p m in
        let (shape, room₂) = memcpy-SameShape (some p) 0 bytes (malloc (length bytes) h).1 h₂ f in
        let (c, at_p, len) = shape p (replicate (length bytes) h.fill) given in
        (
          SameShape-trans h (malloc (length bytes) h).1 h₂ (malloc-SameShape (length bytes) h fresh)
              shape,
          fresh p (omega (arith, own)),
          (c, at_p, omega (arith, room, room₂, len, length-replicate (length bytes) h.fill)),
        )

event_of-Opened :
    (host : Host) (g : Globals) (line : List ℕ) (h h' : Heap) (o : Option Event)
    → IsFresh h
    → event_of host g line h ≡ some (o, h')
    → Opened h o h'
unfolding event_of
event_of-Opened host g line h h' o fresh e =
    let (path, _, f) = >>=-eq_some g.input_path _ e in
    elim (Option-cases (host.open_file (path ++ (b'/' ∷ line)))) [
      | inl n ↦
          (let same = some-is (rw n at f) in
            rw (← ap (λ r. r.0) same, ← ap (λ r. r.1) same) (Keeps-refl h))
      | inr (bytes, s) ↦
          (let (name, _, k) = >>=-eq_some (host.scan_name line) _ (rw s at f) in
            read_data-Opened name bytes h h' o fresh k)
    ]

parse_line-Opened :
    (host : Host) (g g' : Globals) (h h' : Heap) (o : Option Event)
    → IsFresh h
    → parse_line host g h ≡ some (o, g', h')
    → Opened h o h'
unfolding parse_line
parse_line-Opened host g g' h h' o fresh e =
    let (fp, _, f) = >>=-eq_some g.index_fp _ e in
    elim (Option-cases (one_line fp).0) [
      | inl n ↦
          (let same = some-is (rw n at f) in
            rw (← ap (λ r. r.0) same, ← ap (λ r. r.2) same) (Keeps-refl h))
      | inr (line, s) ↦
          (let ((o₁, h₁), r, k) = >>=-eq_some (event_of host g line h) _ (rw s at f) in
            let same = some-is k in
            rw (← ap (λ r. r.0) same, ← ap (λ r. r.2) same)
              (event_of-Opened host g line h h₁ o₁ fresh r))
    ]

-- Handing an event over and freeing its data keeps what was there before the data was read.
finish-Keeps :
    (e : Event) (g : Globals) (h h₁ : Heap) (out : ℤ × Globals × Heap)
    → Opened h (some e) h₁
    → (dispatch e g h₁ >>= λ r. (free (some e.image_block) r.1 >>= λ h''. some (pos 0, r.0, h'')))
      ≡ some out
    → Keeps h out.2
finish-Keeps e g h h₁ out (shape, unused, (c, own, room)) q =
    let ((g₂, h₂), f, k) = >>=-eq_some (dispatch e g h₁) _ q in
    let (shape₂, room₂) = dispatch-Keeps e g h₁ (g₂, h₂) f in
    let (h₃, f₃, k₃) = >>=-eq_some (free (some e.image_block) h₂) _ k in
    let (c₂, own₂, len) = shape₂ e.image_block c own in
    let same = ap (λ o. o.2) (some-is k₃) in
    rw (← same) (
      λ q b at_q.
          (let (b₁, at_q₁, len₁) = SameShape-trans h h₁ h₂ shape shape₂ q b at_q in
            (b₁, free-others e.image_block q h₂ h₃ f₃ (other q b at_q) ∙ at_q₁, len₁)),
      omega (arith, free-room e.image_block c₂ h₂ h₃ own₂ f₃, room₂, len, room),
    )
  where
    none-some : {b : List ℕ} → none ≡ some b → ⊥
    none-some f = ground arith

    other : (q : ℕ) (b : List ℕ) → h.block q ≡ some b → (e.image_block == q) ≡ false
    other q b at_q = elim (Bool-cases (e.image_block == q)) [
      | inl s ↦ absurd (none-some (sym unused ∙ (ap h.block ((==_iff e.image_block q).0 s) ∙ at_q)))
      | inr s ↦ s
    ]

-- A call of `fakenect_process_events` on the fake context that returns 0, in a heap whose next blocks
-- are free, leaves the memory that is left as it was and every block that was there with its length:
-- the recorded data is freed again.
pub fake_process_events-Keeps :
    (host : Host) (g g' : Globals) (h h' : Heap)
    → IsFresh h
    → fake_process_events host g h ≡ some (pos 0, g', h')
    → SameShape h h' × (h'.room ≡ h.room)
unfolding fake_process_events
fake_process_events-Keeps host g g' h h' fresh e =
    let ((o, g₁, h₁), f, k) =
      >>=-eq_some (parse_line host (if is_some g.index_fp then g else open_index host g) h) _ e in
    returned o g₁ h₁ (parse_line-Opened host _ g₁ h h₁ o fresh f) k
  where
    returned :
        (o : Option Event) (g₁ : Globals) (h₁ : Heap)
        → Opened h o h₁
        → elim o as (λ o. Option (ℤ × Globals × Heap)) [
          | none ↦ some (negsuc 0, g₁, h₁)
          | some e ↦
              (dispatch e g₁ h₁ >>= λ r.
              (free (some e.image_block) r.1 >>= λ h''. some (pos 0, r.0, h'')))
        ]
          ≡ some (pos 0, g', h')
        → Keeps h h'
    returned none g₁ h₁ opened k = rw (← ap (λ o. o.2) (some-is k)) opened
    returned (some e) g₁ h₁ opened k = finish-Keeps e g₁ h h₁ (pos 0, g', h') opened k
