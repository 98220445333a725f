-- ===== src/Tweets/Caches.antt =====
-- internal/tweets/cache.go: the list `utl:<author>` of an author's newest tweets, which the home timelines of the
-- followers of celebrities read, and the key `tw:<id>` of a tweet; the tweet stands for its JSON, and the hour after which the
-- key expires is left out.
use yaxter.Common.{
  ℕ, ◌≡◌, true, not, Option, none, some, [], ◌∷◌, ◌==◌, if◌then◌else◌, take, filter, arith,
}
use yaxter.Redis.{
  Outcome, answered, refused, lost, number, is_item, Lists, lpush_command, ltrim_command, Pipe, ran,
  run_commands, exec,
}
use yaxter.Tweets.{Tweet}

abbrev pub utl_cap : ℕ
utl_cap = 200

-- The keys `tw:<id>`.
abbrev pub Cached : Type 0
Cached = ℕ → Option Tweet

put_cached : ℕ → Option Tweet → Cached → Cached
put_cached id t c i = if i == id then t else c i

-- `cacheTweet`, whose error is not looked at.
unfoldable pub cache_tweet : Outcome → Tweet → Cached → Cached
unfolding put_cached
cache_tweet answered t c = put_cached t.id (some t) c
cache_tweet refused t c = c
cache_tweet lost t c = put_cached t.id (some t) c

-- `DEL` of `dropTweetCaches`.
unfoldable pub drop_cached : Outcome → ℕ → Cached → Cached
unfolding put_cached
drop_cached answered tweet c = put_cached tweet none c
drop_cached refused tweet c = c
drop_cached lost tweet c = put_cached tweet none c

module _ {L : Type 0} (r : Lists L) where
  -- `appendUTL`, whose error is not looked at.
  unfoldable pub append_utl : Pipe → ℕ → ℕ → L → L
  append_utl p author tweet l =
      (exec r p (lpush_command author tweet ∷ ltrim_command author utl_cap ∷ []) l).1

  -- `LREM` of `dropTweetCaches`.
  unfoldable pub drop_utl : Outcome → ℕ → ℕ → L → L
  drop_utl answered author tweet l = r.lrem author tweet l
  drop_utl refused author tweet l = l
  drop_utl lost author tweet l = r.lrem author tweet l

  -- The writes of `Create` after its commit.
  unfoldable pub created_caches : Pipe → Outcome → ℕ → Tweet → L × Cached → L × Cached
  created_caches p o author t (l, c) = (append_utl p author t.id l, cache_tweet o t c)

  -- `dropTweetCaches`, the writes of `Delete` after its commit.
  unfoldable pub drop_tweet_caches : Outcome → Outcome → ℕ → ℕ → L × Cached → L × Cached
  drop_tweet_caches o o' author tweet (l, c) = (drop_utl o' author tweet l, drop_cached o tweet c)

  -- A pipeline that runs to its end puts the tweet in front of the list of its author, of which the
  -- newest 200 stay, and leaves the other lists; the answered removal takes the tweet out again
  -- wherever it stands.
  pub drop_utl-append_utl :
      (author tweet i : ℕ) (l : L)
      → (r.lrange i (append_utl ran author tweet l)
          ≡ (if i == author then take utl_cap (number tweet ∷ r.lrange author l) else r.lrange i l))
        × (r.lrange i (drop_utl answered author tweet (append_utl ran author tweet l)) ≡ (
            if i == author
            then filter
                (λ y. not (is_item tweet y))
                (take utl_cap (number tweet ∷ r.lrange author l))
            else r.lrange i l))
  unfolding append_utl drop_utl exec run_commands
  drop_utl-append_utl author tweet i l =
      let own : (author == author) ≡ true = ground arith in
      let pushed = r.lrange_lpush author author tweet l in
      let other = r.lrange_lpush i author tweet l in
      let cut = r.lrange_ltrim author author utl_cap (r.lpush author tweet l) in
      let cut' = r.lrange_ltrim i author utl_cap (r.lpush author tweet l) in
      let gone = r.lrange_lrem i author tweet (r.ltrim author utl_cap (r.lpush author tweet l)) in
      (
        ground (arith, own, pushed, other, cut, cut'),
        ground (arith, own, pushed, other, cut, cut', gone),
      )
