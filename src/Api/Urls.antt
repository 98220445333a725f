-- ===== src/Api/Urls.antt =====
-- The links to images in the replies, and the keys under which the media worker stores them.
use yaxter.Common.{ℕ, ◌≡◌, ◌≢◌, refl, Option, none, some, [], ◌∷◌, ◌++◌, arith}
use yaxter.Common.Decimal.{Text, decimal}
use yaxter.Events.{codes}
use yaxter.Api.{format_id}

-- `media.URL`
unfoldable pub media_url : Text → Text → ℕ → Text
media_url base variant id =
    base ++ (codes "/" ++ (variant ++ (codes "/" ++ (decimal id ++ codes ".webp"))))

-- `variantKey`
unfoldable pub variant_key : Text → ℕ → Text
variant_key variant id = variant ++ (codes "/" ++ (decimal id ++ codes ".webp"))

-- `avatarURL` of the users' handlers.
unfoldable pub avatar_url : Text → Option Text → Option Text
avatar_url base none = none
avatar_url base (some key) = some (base ++ (codes "/feed/" ++ (key ++ codes ".webp")))

-- The links of `tweetToAPI`.
unfoldable pub tweet_media_url : Text → Text → ℕ → Text
unfolding format_id
tweet_media_url base variant id = base ++ (codes "/" ++ (variant ++ (codes "/" ++ format_id id)))

-- The avatars of `tweetToAPI` and of `NotificationsHandlers.toAPI`.
unfoldable pub author_avatar_url : Text → Option Text → Option Text
author_avatar_url [] key = none
author_avatar_url (c ∷ base) none = none
author_avatar_url (c ∷ base) (some key) = some ((c ∷ base) ++ (codes "/orig/" ++ key))

-- The link of a variant of a media id under a base is the base and the key of the variant.
media_url-key :
    (base variant : Text) (id : ℕ)
    → media_url base variant id ≡ base ++ (codes "/" ++ variant_key variant id)
unfolding media_url variant_key
media_url-key base variant id = refl

append_cancel : (xs ys zs : Text) → xs ++ ys ≡ xs ++ zs → ys ≡ zs
append_cancel [] ys zs h = h
append_cancel (x ∷ xs) ys zs h = append_cancel xs ys zs (ground arith)

longer : (xs ys : Text) (c : ℕ) → xs ≡ xs ++ c ∷ ys → ⊥
longer [] ys c h = cc
longer (x ∷ xs) ys c h = longer xs ys c (ground arith)

-- For every base, variant and media id: the media resource links to the key under which the
-- worker stores the variant, and the tweet that shows the same media links to something else.
pub tweet_media_url-wrong :
    (base variant : Text) (id : ℕ)
    → (media_url base variant id ≡ base ++ (codes "/" ++ variant_key variant id))
      × (tweet_media_url base variant id ≢ base ++ (codes "/" ++ variant_key variant id))
unfolding tweet_media_url variant_key format_id
tweet_media_url-wrong base variant id = (
  media_url-key base variant id,
  λ e. longer (decimal id) _ _ (
      append_cancel (codes "/") _ _
        (append_cancel variant _ _ (append_cancel (codes "/") _ _ (append_cancel base _ _ e)))),
)
