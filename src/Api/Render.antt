-- ===== src/Api/Render.antt =====
-- The API's form of users, tweets, notifications and sessions (internal/httpapi). Times are numbers.
use yaxter.Common.{ℕ, Bool, true, false, Option, none, some, List, [], ◌∷◌, map}
use yaxter.Common.Int.{ℤ, pos}
use yaxter.Common.Decimal.{Text}
use yaxter.Events.{codes}
use yaxter.Api.{format_id}
use yaxter.Api.Urls.{avatar_url, author_avatar_url, tweet_media_url}

-- `UserSummary` of the API.
pub record UserSummary : Type 0 where
  pub id : Text
  pub username : Text
  pub avatar_url : Option Text

-- `users.User` and `users.Summary`, as the handlers read them.
pub record Profile : Type 0 where
  pub id : ℕ
  pub username : Text
  pub bio : Text
  pub email : Text
  pub avatar_key : Option Text
  pub followers_count : ℤ
  pub following_count : ℤ
  pub has_password : Bool
  pub created_at : ℕ

pub record Summary : Type 0 where
  pub id : ℕ
  pub username : Text
  pub avatar_key : Option Text

-- `User` and `PrivateUser` of the API.
pub record PublicUser : Type 0 where
  pub id : Text
  pub username : Text
  pub bio : Text
  pub avatar_url : Option Text
  pub followers_count : ℤ
  pub following_count : ℤ
  pub created_at : ℕ

pub record PrivateUser : Type 0 where
  pub id : Text
  pub username : Text
  pub bio : Text
  pub email : Text
  pub avatar_url : Option Text
  pub followers_count : ℤ
  pub following_count : ℤ
  pub has_password : Bool
  pub linked_providers : List Text
  pub created_at : ℕ

-- `toUser`
unfoldable pub to_user : Text → Profile → PublicUser
to_user base u = record {
  id = format_id u.id;
  username = u.username;
  bio = u.bio;
  avatar_url = avatar_url base u.avatar_key;
  followers_count = u.followers_count;
  following_count = u.following_count;
  created_at = u.created_at;
}

-- `toPrivateUser`
unfoldable pub to_private_user : Text → Profile → PrivateUser
to_private_user base u = record {
  id = format_id u.id;
  username = u.username;
  bio = u.bio;
  email = u.email;
  avatar_url = avatar_url base u.avatar_key;
  followers_count = u.followers_count;
  following_count = u.following_count;
  has_password = u.has_password;
  linked_providers = [];
  created_at = u.created_at;
}

-- `toUserSummary`
unfoldable pub to_user_summary : Text → Summary → UserSummary
to_user_summary base s = record {
  id = format_id s.id;
  username = s.username;
  avatar_url = avatar_url base s.avatar_key;
}

-- `auth.User`, as the handlers read it.
pub record AuthUser : Type 0 where
  pub id : ℕ
  pub username : Text
  pub bio : Text
  pub email : Text
  pub has_password : Bool
  pub created_at : ℕ

-- `privateUserFromInfo`; no providers are an empty list.
unfoldable pub private_user_from_info : AuthUser → List Text → PrivateUser
private_user_from_info u providers = record {
  id = format_id u.id;
  username = u.username;
  bio = u.bio;
  email = u.email;
  avatar_url = none;
  followers_count = pos 0;
  following_count = pos 0;
  has_password = u.has_password;
  linked_providers = providers;
  created_at = u.created_at;
}

-- `privateUser`
unfoldable pub private_user : AuthUser → Bool → PrivateUser
unfolding private_user_from_info
private_user u has_password = private_user_from_info (record u { has_password = has_password }) []

-- `HydratedTweet`, as the handlers read it.
pub record Hydrated : Type 0 where
  pub id : ℕ
  pub author_id : ℕ
  pub author_username : Text
  pub author_avatar_key : Option Text
  pub text : Text
  pub media_ids : List ℕ
  pub likes_count : ℤ
  pub retweets_count : ℤ
  pub created_at : ℕ

-- `MediaRef` and `Tweet` of the API.
pub record MediaRef : Type 0 where
  pub id : Text
  pub feed : Text
  pub orig : Text
  pub thumb : Text

pub record TweetBody : Type 0 where
  pub id : Text
  pub text : Text
  pub created_at : ℕ
  pub likes_count : ℤ
  pub retweets_count : ℤ
  pub author : UserSummary
  pub media : Option (List MediaRef)

abbrev pub media_ref : Text → ℕ → MediaRef
media_ref base id = record {
  id = format_id id;
  feed = tweet_media_url base (codes "feed") id;
  orig = tweet_media_url base (codes "orig") id;
  thumb = tweet_media_url base (codes "thumb") id;
}

abbrev pub media_refs : Text → List ℕ → Option (List MediaRef)
media_refs base [] = none
media_refs base (id ∷ ids) = some (map (media_ref base) (id ∷ ids))

-- `tweetToAPI`
unfoldable pub tweet_to_api : Text → Hydrated → TweetBody
tweet_to_api base t = record {
  id = format_id t.id;
  text = t.text;
  created_at = t.created_at;
  likes_count = t.likes_count;
  retweets_count = t.retweets_count;
  author = record {
    id = format_id t.author_id;
    username = t.author_username;
    avatar_url = author_avatar_url base t.author_avatar_key;
  };
  media = media_refs base t.media_ids;
}

-- `Notification` of the service and of the API.
pub record Notice : Type 0 where
  pub id : ℕ
  pub kind : Text
  pub actor_id : ℕ
  pub actor_name : Text
  pub actor_avatar : Option Text
  pub subject_id : Option ℕ
  pub created_at : ℕ
  pub read_at : Option ℕ

pub record NoticeBody : Type 0 where
  pub id : Text
  pub kind : Text
  pub is_read : Bool
  pub created_at : ℕ
  pub subject_id : Option Text
  pub actor : UserSummary

abbrev pub subject_text : Option ℕ → Option Text
subject_text none = none
subject_text (some id) = some (format_id id)

abbrev pub was_read : Option ℕ → Bool
was_read none = false
was_read (some t) = true

-- `NotificationsHandlers.toAPI`
unfoldable pub notice_to_api : Text → Notice → NoticeBody
notice_to_api base n = record {
  id = format_id n.id;
  kind = n.kind;
  is_read = was_read n.read_at;
  created_at = n.created_at;
  subject_id = subject_text n.subject_id;
  actor = record {
    id = format_id n.actor_id;
    username = n.actor_name;
    avatar_url = author_avatar_url base n.actor_avatar;
  };
}
