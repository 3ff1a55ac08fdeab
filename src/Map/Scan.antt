-- ===== src/Map/Scan.antt =====
-- One round of the search: distances, the order of the queue and the work that is left
-- (src/maze/environment/map.cpp).
use mathlib.Core.List.{Memᴰ}
use mathlib.Core.List.Memᴰ
use rl_aiserver.Common.{
  ℕ, zero, suc, ◌+◌, ◌≤◌, ◌<◌, ◌≡◌, ◌≢◌, ◌==◌, ◌⊎◌, inl, inr, refl, sym, ap, ◌∙◌, arith, true,
  false, List, [], ◌∷◌, ◌++◌, length, get_or, set, length-append, length-set, get_or-set_same,
  get_or-set_other, Bool-cases,
}
use rl_aiserver.Common.Int.{ℤ, pos, negsuc}
use rl_aiserver.Map.Search.{Search, at, is_known, offer, scan}

-- The cells without a distance.
abbrev pub unknown : List ℤ → ℕ
unknown [] = 0
unknown (pos n ∷ ds) = unknown ds
unknown (negsuc n ∷ ds) = suc (unknown ds)

pub unknown-set :
    (ds : List ℤ) (i n : ℕ)
    → i < length ds
    → is_known (get_or ds i (negsuc 0)) ≡ false
    → suc (unknown (set ds i (pos n))) ≡ unknown ds
unknown-set [] i n h e = absurd (omega arith)
unknown-set (pos x ∷ ds) zero n h e = cc
unknown-set (negsuc x ∷ ds) zero n h e = refl
unknown-set (pos x ∷ ds) (suc i) n h e = unknown-set ds i n (omega arith) e
unknown-set (negsuc x ∷ ds) (suc i) n h e = ap suc (unknown-set ds i n (omega arith) e)

-- The distances of a queue rise from `lo` to at most `hi`.
unfoldable pub Rising : Search → ℕ → List ℕ → ℕ → Type 0
Rising s lo [] hi = lo ≤ hi
Rising s lo (x ∷ xs) hi = (d : ℕ) × (at s x ≡ pos d) × (lo ≤ d) × Rising s d xs hi

-- Every distance of the first is one of the second.
abbrev pub Grows : Search → Search → Type 0
Grows s t = (w d : ℕ) → at s w ≡ pos d → at t w ≡ pos d

pub Rising-Grows :
    (s t : Search) (lo : ℕ) (xs : List ℕ) (hi hi' : ℕ)
    → Grows s t
    → hi ≤ hi'
    → Rising s lo xs hi
    → Rising t lo xs hi'
unfolding Rising
Rising-Grows s t lo [] hi hi' g h r = omega arith
Rising-Grows s t lo (x ∷ xs) hi hi' g h (d, e, l, r) =
    (d, g x d e, l, Rising-Grows s t d xs hi hi' g h r)

pub Rising-append :
    (s : Search) (lo : ℕ) (xs : List ℕ) (hi v : ℕ)
    → Rising s lo xs hi
    → at s v ≡ pos hi
    → Rising s lo (xs ++ (v ∷ [])) hi
unfolding Rising
Rising-append s lo [] hi v r e = (hi, e, r, omega arith)
Rising-append s lo (x ∷ xs) hi v (d, f, l, r) e = (d, f, l, Rising-append s d xs hi v r e)

-- What the inner loop does on the way from a cell at distance `k`.
pub record Scanned (n k : ℕ) (s t : Search) (es : List ℕ) : Type 0 where
  pub size : length t.distance ≡ n
  pub work : unknown t.distance + length t.queue ≡ unknown s.distance + length s.queue
  pub grows : Grows s t
  pub stays : (x : ℕ) → Memᴰ x s.queue → Memᴰ x t.queue
  pub rising : Rising t k t.queue (k + 1)
  pub covers : (v : ℕ) → Memᴰ v es → (d : ℕ) × (at t v ≡ pos d)
  pub fresh :
      (v d : ℕ) → at t v ≡ pos d → (at s v ≡ pos d) ⊎ (Memᴰ v t.queue × Memᴰ v es × (d ≡ k + 1))

pub pos_eq : {a b : ℕ} → pos a ≡ pos b → a ≡ b
pos_eq e = cc

known : (z : ℤ) → is_known z ≡ true → (d : ℕ) × (z ≡ pos d)
known (pos n) e = (n, refl)
known (negsuc n) e = cc

-- The search after a cell got a distance and was queued.
abbrev put : Search → ℕ → ℕ → Search
put s v d = record { distance = set s.distance v (pos d); queue = s.queue ++ (v ∷ []) }

at-put_same : (s : Search) (v d : ℕ) → v < length s.distance → at (put s v d) v ≡ pos d
at-put_same s v d h = get_or-set_same s.distance v (pos d) (negsuc 0) h

at-put_other : (s : Search) (v d w : ℕ) → v ≢ w → at (put s v d) w ≡ at s w
at-put_other s v d w h = get_or-set_other s.distance v w (pos d) (negsuc 0) h

pub same_cell : (v w : ℕ) → (v ≡ w) ⊎ (v ≢ w)
same_cell v w = elim (Bool-cases (v == w)) [
  | inl e ↦ inl (ground (arith, e))
  | inr e ↦ inr (λ f. ground (arith, e, f))
]

put-Grows : (s : Search) (v d : ℕ) → is_known (at s v) ≡ false → Grows s (put s v d)
put-Grows s v d e w x p = elim (same_cell v w) [
  | inl f ↦ absurd (cc (e, ap is_known p, ap (λ y. is_known (at s y)) f))
  | inr f ↦ at-put_other s v d w f ∙ p
]

module _ (n k u : ℕ) (s : Search) (size : length s.distance ≡ n) (at_u : at s u ≡ pos k)
    (rising : Rising s k s.queue (k + 1)) (v : ℕ) (v_in : v < n) where
  put-Scanned : is_known (at s v) ≡ false → Scanned n k s (put s v (k + 1)) (v ∷ [])
  put-Scanned e =
      let in_range : v < length s.distance = omega (arith, size) in
      record {
        size = length-set s.distance v (pos (k + 1)) ∙ size;
        work =
            omega
              (arith, unknown-set s.distance v (k + 1) in_range e, length-append s.queue (v ∷ []));
        grows = put-Grows s v (k + 1) e;
        stays = λ x m. Memᴰ.append_left (v ∷ []) m;
        rising =
            Rising-append (put s v (k + 1)) k s.queue (k + 1) v
              (Rising-Grows s (put s v (k + 1)) k s.queue (k + 1) (k + 1) (put-Grows s v (k + 1) e)
                (omega arith) rising)
              (at-put_same s v (k + 1) in_range);
        covers = λ w m. (
          k + 1,
          ap (at (put s v (k + 1))) (Memᴰ.eq_of_singleton m) ∙ at-put_same s v (k + 1) in_range,
        );
        fresh = λ w d p. elim (same_cell v w) [
          | inl f ↦ inr (
            Memᴰ.append_right s.queue (Memᴰ.head (sym f)),
            Memᴰ.head (sym f),
            pos_eq (sym p ∙ ap (at (put s v (k + 1))) (sym f) ∙ at-put_same s v (k + 1) in_range),
          )
          | inr f ↦ inl (sym (at-put_other s v (k + 1) w f) ∙ p)
        ];
      }

  -- One neighbour.
  pub offer-Scanned : Scanned n k s (offer u s v) (v ∷ [])
  unfolding offer
  offer-Scanned = elim (Bool-cases (is_known (at s v))) [
    | inl e ↦ rw e record {
      size = size;
      work = refl;
      grows = λ w d p. p;
      stays = λ x m. m;
      rising = rising;
      covers = λ w m. known (at s w) (ap (λ y. is_known (at s y)) (Memᴰ.eq_of_singleton m) ∙ e);
      fresh = λ w d p. inl p;
    }
    | inr e ↦ rw (e, at_u) (put-Scanned e)
  ]

-- The inner loop over all neighbours.
pub scan-Scanned :
    (n k u : ℕ) (s : Search) (es : List ℕ)
    → length s.distance ≡ n
    → at s u ≡ pos k
    → Rising s k s.queue (k + 1)
    → ((v : ℕ) → Memᴰ v es → v < n)
    → Scanned n k s (scan u s es) es
unfolding scan
scan-Scanned n k u s [] size at_u rising inside = record {
  size = size;
  work = refl;
  grows = λ w d p. p;
  stays = λ x m. m;
  rising = rising;
  covers = λ w m. absurd (Memᴰ.not-nil m);
  fresh = λ w d p. inl p;
}
scan-Scanned n k u s (v ∷ es) size at_u rising inside =
    let a = offer-Scanned n k u s size at_u rising v (inside v (Memᴰ.head refl)) in
    let b =
      scan-Scanned n k u (offer u s v) es a.size (a.grows u k at_u) a.rising
        (λ w m. inside w (Memᴰ.tail m)) in
    record {
      size = b.size;
      work = b.work ∙ a.work;
      grows = λ w d p. b.grows w d (a.grows w d p);
      stays = λ x m. b.stays x (a.stays x m);
      rising = b.rising;
      covers = λ w m. elim (Memᴰ.cases_cons m) [
        | inl e ↦ let c = a.covers w (Memᴰ.head e) in (c.0, b.grows w c.0 c.1)
        | inr t ↦ b.covers w t
      ];
      fresh = λ w d p. elim (b.fresh w d p) [
        | inr (q, t, e) ↦ inr (q, Memᴰ.tail t, e)
        | inl p' ↦ elim (a.fresh w d p') [
          | inl p'' ↦ inl p''
          | inr (q, t, e) ↦ inr (b.stays w q, Memᴰ.head (Memᴰ.eq_of_singleton t), e)
        ]
      ];
    }
