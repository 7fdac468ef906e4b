-- ===== src/Gateway/Presence/Tracking.antt =====
-- The presence that Redis keeps and that is announced, against the live connections.
use meridian_backend.Prelude.{
  ℕ, String, Bool, true, false, Option, none, some, List, [], ◌∷◌, ◌++◌, ◌≡◌, ◌∙◌, ap, sym, refl,
  get_or, is_some, ltb, leb, if◌then◌else◌, ◌==◌, ◌&&◌, ℤ, pos, negsuc, ◌+ℤ◌, is_at_most_zero, ◌<◌,
  ◌⊎◌, inl, inr, arith,
}
use meridian_backend.Redis.Presence.{
  count_key, identity_key, Hashes, IsLawful, is_field, presence_ttl, presence_join, after_decrement,
  presence_leave, presence_roster,
}
use meridian_backend.Gateway.Presence.{
  Announcement, is_one, Connection, joined, closed, elapsed, IsInTime, IsRenewed, left_after,
  connect, connect_all, live_after, live_connections, announced,
}
use meridian_backend.Gateway.Presence.Counts.{
  as_count, is_field-≡, is_one_more, none_less, count_more, said_more, count_less, said_less,
  is_some-if, both_less,
}
use meridian_backend.Gateway.Presence.Kept.{AreKept, AreKept-connect}
use meridian_backend.Gateway.Presence.Effects.{
  count-presence_join, name-presence_join, count-enter, name-enter, announced-enter,
  presence_join-count, count-after_decrement, name-after_decrement, state-leave, announced-leave,
}

no_name : {A : Type 0} (o : Option A) → is_some o ≡ false → o ≡ none
no_name none h = refl
no_name (some a) h = cc h

module _ {H : Hashes} (laws : IsLawful H) (d u : ℕ) where
  pub Tracks : ℕ → H.State → Type 0
  Tracks n s = (H.count d u s ≡ as_count n) × (is_some (H.name d u s) ≡ ltb 0 n)

  -- The count of a connection of this user is the count that is kept for it.
  own_count :
      (document_id user_id n : ℕ) (s : H.State)
      → H.count d u s ≡ as_count n
      → is_field d u document_id user_id ≡ true
      → H.count document_id user_id s ≡ as_count n
  own_count document_id user_id n s counted same =
      let (e, e') = is_field-≡ d u document_id user_id same in
      ap (λ i. H.count i user_id s) (sym e) ∙ ap (λ i. H.count d i s) (sym e') ∙ counted

  -- What is kept and announced about the user fits a number of live connections.
  pub Fits : ℕ → Bool → List Announcement × H.State → Type 0
  Fits n before r = Tracks n r.1 × (announced d u r.0 before ≡ ltb 0 n)

  joined-Fits :
      (document_id user_id n : ℕ) (name : String) (s : H.State) (before : Bool)
      → Tracks n s
      → before ≡ ltb 0 n
      → Fits
          (live_after d u (joined document_id user_id name) n)
          before
          (connect H (joined document_id user_id name) s)
  unfolding Tracks Fits
  joined-Fits document_id user_id n name s before (counted, named) said = (
    (
      count-enter laws d u document_id user_id name r.0 r.1
          ∙ count-presence_join laws d u document_id user_id s
          ∙ count_more f _ _ n own counted,
      ap is_some (name-enter laws d u document_id user_id name r.0 r.1)
          ∙ is_some-if (is_one r.0 && f) (some name) (H.name d u r.1)
          ∙ said_more f (is_one r.0) (is_some (H.name d u r.1)) n first
              (ap is_some (name-presence_join laws d u document_id user_id s) ∙ named),
    ),
    announced-enter laws d u document_id user_id name r.0 r.1 before
        ∙ said_more f (is_one r.0) before n first said,
  )
    where
      f : Bool
      f = is_field d u document_id user_id

      r : ℤ × H.State
      r = presence_join H document_id user_id s

      own : f ≡ true → H.count document_id user_id s ≡ as_count n
      own same = own_count document_id user_id n s counted same

      first : f ≡ true → is_one r.0 ≡ (n == 0)
      first same =
          ap is_one (
            presence_join-count laws d u document_id user_id s
            ∙ ap (λ c. get_or c (pos 0) +ℤ pos 1) (own same))
          ∙ is_one_more n

  closed-Fits :
      (document_id user_id n : ℕ) (email : String) (s : H.State) (before : Bool)
      → Tracks n s
      → before ≡ ltb 0 n
      → Fits
          (live_after d u (closed document_id user_id email) n)
          before
          (connect H (closed document_id user_id email) s)
  unfolding Tracks Fits presence_leave
  closed-Fits document_id user_id n email s before (counted, named) said = (
    (
      ap (H.count d u) (state-leave laws d u document_id user_id email (after_decrement H _ _ r))
          ∙ count-after_decrement laws d u document_id user_id r.0 r.1
          ∙ ap (λ o. if is_at_most_zero r.0 && f then none else o)
              (laws.count-hincr_by d u document_id user_id (negsuc 0) s)
          ∙ ap
              (λ z.
                if is_at_most_zero z && f
                then none
                else (if f then some (get_or x (pos 0) +ℤ negsuc 0) else H.count d u s))
              reply
          ∙ both_less f _ _ _
          ∙ count_less f x _ n own counted,
      ap (λ s'. is_some (H.name d u s'))
            (state-leave laws d u document_id user_id email (after_decrement H _ _ r))
          ∙ ap is_some (name-after_decrement laws d u document_id user_id r.0 r.1)
          ∙ is_some-if (is_at_most_zero r.0 && f) none (H.name d u r.1)
          ∙ said_less f (is_at_most_zero r.0) (is_some (H.name d u r.1)) n last
              (ap is_some (laws.name-hincr_by d u document_id user_id (negsuc 0) s) ∙ named),
    ),
    announced-leave laws d u document_id user_id email r.0 r.1 before
        ∙ said_less f (is_at_most_zero r.0) before n last said,
  )
    where
      f : Bool
      f = is_field d u document_id user_id

      r : ℤ × H.State
      r = H.hincr_by document_id user_id (negsuc 0) s

      x : Option ℤ
      x = H.count document_id user_id s

      reply : r.0 ≡ get_or x (pos 0) +ℤ negsuc 0
      reply = laws.hincr_by-count document_id user_id (negsuc 0) s

      own : f ≡ true → x ≡ as_count n
      own same = own_count document_id user_id n s counted same

      last : f ≡ true → is_at_most_zero r.0 ≡ leb n 1
      last same =
          ap is_at_most_zero (reply ∙ ap (λ c. get_or c (pos 0) +ℤ negsuc 0) (own same))
          ∙ none_less n

  elapsed-Fits :
      (seconds n left : ℕ) (s : H.State) (before : Bool)
      → (n ≡ 0) ⊎ (seconds < left)
      → AreKept laws d left s
      → Tracks n s
      → before ≡ ltb 0 n
      → Fits n before (connect H (elapsed seconds) s)
  unfolding Tracks Fits
  elapsed-Fits seconds n left s before (inr lt) (le, count, name) (counted, named) said = (
    (
      laws.count-pass d u left seconds s count lt ∙ counted,
      ap is_some (laws.name-pass d u left seconds s name lt) ∙ named,
    ),
    said,
  )
  elapsed-Fits seconds n left s before (inl away) kept (counted, named) said = (
    (
      laws.count-pass_none d u seconds s (counted ∙ rw away refl) ∙ rw away refl,
      ap is_some (laws.name-pass_none d u seconds s (no_name _ (named ∙ rw away refl)))
          ∙ rw away refl,
    ),
    said,
  )

  connect-Fits :
      (c : Connection) (n left : ℕ) (s : H.State) (before : Bool)
      → IsInTime c n left
      → AreKept laws d left s
      → Tracks n s
      → before ≡ ltb 0 n
      → Fits (live_after d u c n) before (connect H c s)
  connect-Fits (joined document_id user_id name) n left s before _ _ h said =
      joined-Fits document_id user_id n name s before h said
  connect-Fits (closed document_id user_id email) n left s before _ _ h said =
      closed-Fits document_id user_id n email s before h said
  connect-Fits (elapsed seconds) n left s before in_time kept h said =
      elapsed-Fits seconds n left s before in_time kept h said

  announced-++ :
      (xs ys : List Announcement) (before : Bool)
      → announced d u (xs ++ ys) before ≡ announced d u ys (announced d u xs before)
  announced-++ [] ys before = refl
  announced-++ (x ∷ xs) ys before = announced-++ xs ys _

  connect_all-Fits :
      (connections : List Connection) (n left : ℕ) (s : H.State) (before : Bool)
      → IsRenewed d u connections n left
      → AreKept laws d left s
      → Tracks n s
      → before ≡ ltb 0 n
      → Fits (live_connections d u connections n) before (connect_all H connections s)
  unfolding connect_all Fits
  connect_all-Fits [] n left s before _ _ h said = (h, said)
  connect_all-Fits (c ∷ connections) n left s before (in_time, renewed) kept h said =
      let (tracked, heard) = connect-Fits c n left s before in_time kept h said in
      let (tracked', heard') =
        connect_all-Fits connections (live_after d u c n) (left_after d c left) (connect H c s).1
          (announced d u (connect H c s).0 before) renewed (AreKept-connect laws d left c s kept)
          tracked heard in
      (tracked', announced-++ (connect H c s).0 _ before ∙ heard')

  -- Through any history of connections that are counted and closed, on whatever instances, in which
  -- the user is never connected to the document as long as the time to live without anybody joining
  -- it: the count that Redis keeps for the user is the number of its live connections, the user is
  -- in the roster exactly while there is one, and the last announcement says so. At first nothing is
  -- kept of the user, and the hashes of the document do not expire before the time to live.
  pub connect_all-presence :
      (connections : List Connection) (s : H.State)
      → IsRenewed d u connections 0 presence_ttl
      → H.IsKept (count_key d) presence_ttl s
      → H.IsKept (identity_key d) presence_ttl s
      → H.count d u s ≡ none
      → H.name d u s ≡ none
      → (H.count d u (connect_all H connections s).1
          ≡ as_count (live_connections d u connections 0))
        × (is_some (presence_roster H d (connect_all H connections s).1 u)
            ≡ ltb 0 (live_connections d u connections 0))
        × (announced d u (connect_all H connections s).0 false
            ≡ ltb 0 (live_connections d u connections 0))
  unfolding presence_roster Tracks Fits
  connect_all-presence connections s renewed count name uncounted unnamed =
      let ((counted, named), said) =
        connect_all-Fits connections 0 presence_ttl s false renewed (omega arith, count, name)
          (uncounted, ap is_some unnamed) refl in
      (counted, ap is_some (laws.hget_all-name d u _) ∙ named, said)
