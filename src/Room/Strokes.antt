-- ===== src/Room/Strokes.antt =====
-- The strokes of painters as packs, framed one by one or together, in any order.
use mathlib.Core.List.{flatten, Permᴰ, head-eq_of_cons-eq, tail-eq_of_cons-eq}
use mathlib.Core.List.Permᴰ
use mathlib.Core.List.Permᴰ.{nil, cons, swap, trans}
use mathlib.Core.Path.{subst}
use paintty_server_go.Prelude.{
  ◌≡◌, refl, sym, ap, ◌∙◌, List, [], ◌∷◌, ◌++◌, map, Bytes, arith, length, length-append,
  append_assoc,
}
use paintty_server_go.Common.{Zlib}
use paintty_server_go.Socket.Reader.{Package}
use paintty_server_go.Socket.Reader.RoundTrip.{Pack, frame, wire, received, Fits, AllFit}
use paintty_server_go.Socket.Client.Wire.{data_message, pack_of}

-- The packs of some strokes.
abbrev pub packs : List Bytes → List Pack
packs strokes = map pack_of (map data_message strokes)

-- A reordered image is the image of a reordered list.
map_reordered {ℓ κ} :
    {A : Type ℓ} {B : Type κ} (f : A → B) (xs : List A) {bs ys : List B}
    → Permᴰ bs ys
    → map f xs ≡ bs
    → (zs : List A) × Permᴰ xs zs × (map f zs ≡ ys)
map_reordered f [] nil e = ([], nil, refl)
map_reordered f (x ∷ xs) nil e = absurd (cc e)
map_reordered f [] (cons q p) e = absurd (cc e)
map_reordered f (x ∷ xs) (cons q p) e =
    let (zs, p', e') = map_reordered f xs p (tail-eq_of_cons-eq e) in
    (x ∷ zs, cons refl p', cc (head-eq_of_cons-eq e, q, e'))
map_reordered f [] (swap q q') e = absurd (cc e)
map_reordered f (x ∷ []) (swap q q') e = absurd (cc e)
map_reordered f (x ∷ y ∷ xs) (swap q q') e =
    let rest = tail-eq_of_cons-eq e in
    (
      y ∷ x ∷ xs,
      swap refl refl,
      cc (head-eq_of_cons-eq e, head-eq_of_cons-eq rest, tail-eq_of_cons-eq rest, q, q'),
    )
map_reordered f xs (trans p p') e =
    let (ys, r, e') = map_reordered f xs p e in
    let (zs, r', e'') = map_reordered f ys p' e' in (zs, trans r r', e'')

module _ (z : Zlib) where
  abbrev pub sent_packages : List Bytes → List Package
  sent_packages strokes = map (received z) (packs strokes)

  pub wire-append :
      (early late : List Bytes)
      → wire z (packs (early ++ late)) ≡ wire z (packs early) ++ wire z (packs late)
  wire-append [] late = refl
  wire-append (d ∷ early) late =
      let k : Bytes = frame z (pack_of (data_message d)) in
      ap (◌++◌ k) (wire-append early late)
      ∙ sym (append_assoc k (wire z (packs early)) (wire z (packs late)))

  pub AllFit-append :
      (early late : List Bytes)
      → AllFit z (packs early)
      → AllFit z (packs late)
      → AllFit z (packs (early ++ late))
  AllFit-append [] late h k = k
  AllFit-append (d ∷ early) late h k = (h.0, AllFit-append early late h.1 k)

  pub AllFit-reordered :
      {early late : List Bytes} → Permᴰ early late → AllFit z (packs early) → AllFit z (packs late)
  AllFit-reordered nil fit = tt
  AllFit-reordered (cons {a = a} {b = b} q p) fit =
      (subst (λ d. Fits z (pack_of (data_message d))) q fit.0, AllFit-reordered p fit.1)
  AllFit-reordered (swap q q') fit = (
    subst (λ d. Fits z (pack_of (data_message d))) q' fit.1.0,
    (subst (λ d. Fits z (pack_of (data_message d))) q fit.0, fit.1.1),
  )
  AllFit-reordered (trans p p') fit = AllFit-reordered p' (AllFit-reordered p fit)

  abbrev pub frame_of : Bytes → Bytes
  frame_of d = frame z (pack_of (data_message d))

  pub length-wire_reordered :
      {early late : List Bytes}
      → Permᴰ early late
      → length (wire z (packs early)) ≡ length (wire z (packs late))
  length-wire_reordered nil = refl
  length-wire_reordered (cons {a = a} {b = b} {l₁ = early} {l₂ = late} q p) =
      let same = length-wire_reordered p in
      omega (
        arith,
        same,
        ap (λ d. length (frame_of d)) q,
        length-append (frame_of a) (wire z (packs early)),
        length-append (frame_of b) (wire z (packs late)),
      )
  length-wire_reordered (swap {a = a} {b = b} {a' = a'} {b' = b'} {l = l} q q') =
      let rest : Bytes = wire z (packs l) in
      omega (
        arith,
        ap (λ d. length (frame_of d)) q,
        ap (λ d. length (frame_of d)) q',
        length-append (frame_of a) (frame_of b ++ rest),
        length-append (frame_of b) rest,
        length-append (frame_of a') (frame_of b' ++ rest),
        length-append (frame_of b') rest,
      )
  length-wire_reordered (trans p p') = length-wire_reordered p ∙ length-wire_reordered p'

  pub flatten-frames :
      (strokes : List Bytes) → flatten (map frame_of strokes) ≡ wire z (packs strokes)
  unfolding flatten
  flatten-frames [] = refl
  flatten-frames (d ∷ strokes) = ap (◌++◌ (frame_of d)) (flatten-frames strokes)

  -- Whole frames, in some order.
  pub frames_reordered :
      (strokes arrived : List Bytes)
      → Permᴰ arrived (map frame_of strokes)
      → (last : List Bytes) × Permᴰ strokes last × (flatten arrived ≡ wire z (packs last))
  frames_reordered strokes arrived p =
      let (last, q, e) = map_reordered frame_of strokes (Permᴰ.symm p) refl in
      (last, q, ap flatten (sym e) ∙ flatten-frames last)
