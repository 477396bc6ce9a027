-- ===== src/RateLimit/SlidingWindow/Window.antt =====
-- In no stretch of time as long as the window does the limiter admit more than its maximum.
use mathlib.Core.Path.{subst₂}
use mathlib.Core.List.{append-nil, append_assoc}
use kubectl_mcp.Prelude.{
  ℕ, ◌+◌, ◌≤◌, Bool, true, false, ◌&&◌, List, [], ◌∷◌, ◌++◌, ◌≡◌, refl, ◌∙◌, ap, arith, ltb, leb,
  length, filter, count, count-append, if◌then◌else◌, Ascending, if_elim, Bool-cases, inl, inr,
}
use kubectl_mcp.RateLimit.SlidingWindow.{
  SlidingWindowLimiter, new_sliding_window_limiter, in_window, allow,
}

-- the times at which a sequence of calls was admitted
unfoldable pub admitted : List ℕ → SlidingWindowLimiter → List ℕ
admitted [] l = []
admitted (now ∷ times) l =
    let (l', taken) = allow now l in
    let rest = admitted times l' in if taken then now ∷ rest else rest

-- `t` lies in the stretch of `window` nanoseconds that begins at `from`
abbrev pub in_stretch : ℕ → ℕ → ℕ → Bool
in_stretch from window t = leb from t && ltb t (from + window)

-- What later calls can see of the requests is what they can see of all that was admitted.
record Tracks (now window : ℕ) (requests past : List ℕ) : Type 0 where
  same :
      (later : ℕ)
      → now ≤ later
      → filter (in_window window later) requests ≡ filter (in_window window later) past

filter-append : (p : ℕ → Bool) (xs ys : List ℕ) → filter p (xs ++ ys) ≡ filter p xs ++ filter p ys
filter-append p [] ys = refl
filter-append p (x ∷ xs) ys = ground (arith, filter-append p xs ys)

-- a time that has left the window has left it for good
filter_later :
    (window now later : ℕ) (xs : List ℕ)
    → now ≤ later
    → filter (in_window window later) (filter (in_window window now) xs)
      ≡ filter (in_window window later) xs
filter_later window now later [] h = refl
filter_later window now later (x ∷ xs) h = ground (arith, filter_later window now later xs)

-- of what was admitted in a stretch that `now` lies in, nothing has left the window
count-in_stretch-le :
    (from window now : ℕ) (past : List ℕ)
    → in_stretch from window now ≡ true
    → count (in_stretch from window) past ≤ length (filter (in_window window now) past)
count-in_stretch-le from window now [] h = omega arith
count-in_stretch-le from window now (x ∷ xs) h =
    ground (arith, count-in_stretch-le from window now xs)

-- what holds of a limiter that has admitted `past`, the last call at `last`
record Good (last : ℕ) (l : SlidingWindowLimiter) (past : List ℕ) : Type 0 where
  tracks : Tracks last l.window_size l.requests past
  bounded : (from : ℕ) → count (in_stretch from l.window_size) past ≤ l.max_requests

Tracks-refused :
    (window last now : ℕ) (requests past : List ℕ)
    → last ≤ now
    → Tracks last window requests past
    → Tracks now window (filter (in_window window now) requests) past
Tracks-refused window last now requests past h t = record {
  same = λ later k. filter_later window now later requests k ∙ t.same later (omega arith);
}

Tracks-admitted :
    (window last now : ℕ) (requests past : List ℕ)
    → last ≤ now
    → Tracks last window requests past
    → Tracks now window (filter (in_window window now) requests ++ now ∷ []) (past ++ now ∷ [])
Tracks-admitted window last now requests past h t = record {
  same = λ later k.
      let p = in_window window later in
      ground (
        arith,
        filter-append p (filter (in_window window now) requests) (now ∷ []),
        filter-append p past (now ∷ []),
        filter_later window now later requests k,
        t.same later (omega arith),
      );
}

-- room among the valid requests is room in every stretch that the new one falls in
count-admitted :
    (window most last now from : ℕ) (requests past : List ℕ)
    → last ≤ now
    → Tracks last window requests past
    → count (in_stretch from window) past ≤ most
    → leb most (length (filter (in_window window now) requests)) ≡ false
    → count (in_stretch from window) (past ++ now ∷ []) ≤ most
count-admitted window most last now from requests past h t b room =
    let visible : length (filter (in_window window now) requests)
        ≡ length (filter (in_window window now) past) =
      ap length (t.same now h) in
    elim (Bool-cases (in_stretch from window now)) [
      | inl inside ↦ ground (
        arith,
        count-append (in_stretch from window) past (now ∷ []),
        count-in_stretch-le from window now past inside,
        visible,
      )
      | inr outside ↦ ground (arith, count-append (in_stretch from window) past (now ∷ []))
    ]

-- what was admitted after a call
abbrev after : ℕ → List ℕ → Bool → List ℕ
after now past taken = if taken then past ++ now ∷ [] else past

allow-Good :
    (last now : ℕ) (l : SlidingWindowLimiter) (past : List ℕ)
    → last ≤ now
    → Good last l past
    → Good now (allow now l).0 (after now past (allow now l).1)
unfolding allow
allow-Good last now l past h g =
    let w = l.window_size in
    let valid = filter (in_window w now) l.requests in
    let P : SlidingWindowLimiter × Bool → Type 0 = λ r. Good now r.0 (after now past r.1) in
    if_elim P l.closed
      (λ _. record {
        tracks = record { same = λ later k. g.tracks.same later (omega arith) };
        bounded = g.bounded;
      })
      (λ _.
        if_elim P (leb l.max_requests (length valid))
          (λ _. record {
            tracks = Tracks-refused w last now l.requests past h g.tracks;
            bounded = g.bounded;
          })
          (λ room. record {
            tracks = Tracks-admitted w last now l.requests past h g.tracks;
            bounded = λ from.
                count-admitted w l.max_requests last now from l.requests past h g.tracks
                  (g.bounded from) room;
          }))

allow_settings :
    (now : ℕ) (l : SlidingWindowLimiter)
    → ((allow now l).0.window_size ≡ l.window_size)
      × ((allow now l).0.max_requests ≡ l.max_requests)
unfolding allow
allow_settings now l = ground arith

append-after :
    (now : ℕ) (past rest : List ℕ) (taken : Bool)
    → after now past taken ++ rest ≡ past ++ (if taken then now ∷ rest else rest)
append-after now past rest true = append_assoc past (now ∷ []) rest
append-after now past rest false = refl

admitted-bounded :
    (last : ℕ) (times : List ℕ) (l : SlidingWindowLimiter) (past : List ℕ)
    → Ascending last times
    → Good last l past
    → (from : ℕ) → count (in_stretch from l.window_size) (past ++ admitted times l) ≤ l.max_requests
unfolding admitted
admitted-bounded last [] l past asc g from = rw append-nil (g.bounded from)
admitted-bounded last (now ∷ times) l past asc g from =
    let l' = (allow now l).0 in
    let (window, most) = allow_settings now l in
    let rest = admitted times l' in
    rw (← append-after now past rest (allow now l).1) (
      subst₂ (λ w m. count (in_stretch from w) (after now past (allow now l).1 ++ rest) ≤ m) window
        most
        (admitted-bounded now times l' (after now past (allow now l).1) asc.1
          (allow-Good last now l past asc.0 g) from))

-- A new limiter, called at times that never go back, admits in no stretch of time as long as its
-- window more than its maximum of requests.
pub admitted-window :
    (window most start : ℕ) (times : List ℕ) (from : ℕ)
    → Ascending start times
    → count (in_stretch from window) (admitted times (new_sliding_window_limiter window most))
      ≤ most
unfolding new_sliding_window_limiter
admitted-window window most start times from asc =
    admitted-bounded start times (new_sliding_window_limiter window most) [] asc
      (record { tracks = record { same = λ later k. refl }; bounded = λ from. omega arith }) from
