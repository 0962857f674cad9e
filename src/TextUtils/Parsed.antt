-- ===== src/TextUtils/Parsed.antt =====
-- The job that parses a text, from its mentions to its hashtags.
use graffi_tab_backend.Prelude.{
  ℕ, ◌+◌, ◌≡◌, ◌∙◌, refl, ap, not, ◌&&◌, ◌||◌, Option, none, some, List, [], ◌∷◌, ◌==◌, find,
  find-update, length, filter, IsKeyed, arith, if◌then◌else◌,
}
use graffi_tab_backend.Prelude.Text.{Text, text_eq}
use graffi_tab_backend.Errors.{ok}
use graffi_tab_backend.Model.Account.{User}
use graffi_tab_backend.Model.Content.{Streamable}
use graffi_tab_backend.Model.Content
use graffi_tab_backend.Backend.{Backend, Action, ◌>>◌}
use graffi_tab_backend.Users.Invariant.Distinct.{IsDistinct}
use graffi_tab_backend.Notifications.{new_notification}
use graffi_tab_backend.Jobs.Delivery.{unread, unread-append}
use graffi_tab_backend.TextUtils.{groups, parse_mention, parse_hashtag, parse_text, for_each}
use graffi_tab_backend.TextUtils.Tags.{
  has, add_tags, has-add_tags, IsTagSet, with_tags, add_tags-IsTagSet, tagged, parse_hashtags_lem,
}
use graffi_tab_backend.TextUtils.Mentions.{
  first_named, noted, all_noted, all_noted_keeps, parse_mentions_lem, is_for, is_for-first_named,
}

then_lem : (f k : Action (Unit {0})) (s s' : Backend) → f s ≡ (ok tt, s') → (f >> k) s ≡ k s'
then_lem f k s s' e = ground arith

module _ (current id : ℕ) (comment : Option ℕ) (now : ℕ) where
  -- The job runs both loops to their ends.
  parsed :
      (t : Text) (s : Backend) {v : Streamable}
      → IsKeyed s.db.users.rows
      → IsDistinct (λ u. u.username) s.db.users.rows
      → find id s.db.streamables.rows ≡ some v
      → parse_text current (some t) id comment now s ≡ (
        ok tt,
        tagged id
            (add_tags (groups b'#' t) v.hashtags)
            (all_noted current id comment now s.db.users.rows (groups b'@' t) s),
      )
  unfolding parse_text
  parsed t s {v} k d row =
      let m : Backend = all_noted current id comment now s.db.users.rows (groups b'@' t) s in
      let mentions =
        parse_mentions_lem current id comment now s.db.users.rows (groups b'@' t) s refl k d in
      let (_, kept) = all_noted_keeps current id comment now s.db.users.rows (groups b'@' t) s in
      let tags = parse_hashtags_lem id (groups b'#' t) m {v = v} (rw kept row) in
      ap (λ x. (ok tt, x.1))
        (then_lem (for_each (parse_mention current id comment now) (groups b'@' t))
            (for_each (parse_hashtag id) (groups b'#' t)) s m mentions
          ∙ tags)

  -- Where the streamable is there and no two users share an id or a username, the job for a text
  -- leaves the streamable exactly the hashtags that it had and those in the text, none twice
  -- where none was twice before.
  pub parse_text-tags :
      (t x : Text) (s : Backend) {v : Streamable}
      → IsKeyed s.db.users.rows
      → IsDistinct (λ u. u.username) s.db.users.rows
      → find id s.db.streamables.rows ≡ some v
      → IsTagSet v.hashtags
      → (w : Streamable) × (find id
            (parse_text current (some t) id comment now s).1.db.streamables.rows
          ≡ some w)
        × (has x w.hashtags ≡ (has x v.hashtags || has x (groups b'#' t)))
        × IsTagSet w.hashtags
  parse_text-tags t x s {v} k d row set =
      let gs : List Text = groups b'#' t in
      let tags : List Text = add_tags gs v.hashtags in
      let m : Backend = all_noted current id comment now s.db.users.rows (groups b'@' t) s in
      let (_, kept) = all_noted_keeps current id comment now s.db.users.rows (groups b'@' t) s in
      let there : find id m.db.streamables.rows ≡ some v = rw kept row in
      (
        with_tags tags v,
        rw (parsed t s {v = v} k d row)
            (ground (arith, find-update id id (with_tags tags) m.db.streamables.rows)),
        has-add_tags x gs v.hashtags,
        add_tags-IsTagSet gs v.hashtags set,
      )

  unread-noted :
      (b : ℕ) (o : Option (ℕ × User)) (s : Backend)
      → unread b (noted current id comment now o s).db.notifications.rows
        ≡ unread b s.db.notifications.rows + (if is_for b o && not (b == current) then 1 else 0)
  unread-noted b none s = omega arith
  unread-noted b (some (c, u)) s = ground (
    arith,
    unread-append b s.db.notifications.rows (
        (s.db.notifications.next, new_notification c (Content.mention current id comment) now)
        ∷ []),
  )

  unread-all_noted :
      (b : ℕ) (rows : List (ℕ × User)) (gs : List Text) (s : Backend) {u : User}
      → IsKeyed rows
      → IsDistinct (λ w. w.username) rows
      → find b rows ≡ some u
      → unread b (all_noted current id comment now rows gs s).db.notifications.rows
        ≡ unread b s.db.notifications.rows
          + (if b == current then 0 else length (filter (text_eq u.username) gs))
  unread-all_noted b rows [] s {u} k d row = ground arith
  unread-all_noted b rows (g ∷ gs) s {u} k d row = ground (
    arith,
    unread-all_noted b rows gs (noted current id comment now (first_named g rows) s) {u = u} k d
        row,
    unread-noted b (first_named g rows) s,
    is_for-first_named b g rows {u = u} k d row,
  )

  -- Where the streamable is there and no two users share an id or a username, the job for a text
  -- leaves a user one more unread notification for each time that the text mentions their name,
  -- and none to the user whose text it is.
  pub parse_text-unread :
      (b : ℕ) (t : Text) (s : Backend) {u : User} {v : Streamable}
      → IsKeyed s.db.users.rows
      → IsDistinct (λ w. w.username) s.db.users.rows
      → find id s.db.streamables.rows ≡ some v
      → find b s.db.users.rows ≡ some u
      → unread b (parse_text current (some t) id comment now s).1.db.notifications.rows
        ≡ unread b s.db.notifications.rows
          + (if b == current then 0 else length (filter (text_eq u.username) (groups b'@' t)))
  parse_text-unread b t s {u} {v} k d row name =
      rw (parsed t s {v = v} k d row)
        (unread-all_noted b s.db.users.rows (groups b'@' t) s {u = u} k d name)
