-- ===== src/Telegram/Targets.antt =====
-- telegram/targets.go: the chats and forum topics to which the bot sends.
pub mod Accepted
use xray_checker_tg_bot.Base.{
  Text, zero, suc, ℤ, pos, negsuc, Bool, true, false, ◌||◌, not, List, [], ◌∷◌, ◌++◌, Result, ok,
  err, ◌>>=◌, Option, none, some, eqt, trim_space, contains, print_int, atoi, cut, if◌then◌else◌,
}
use xray_checker_tg_bot.Checker.Runtime.{is_positive}

-- ChatTarget
pub record ChatTarget : Type 0 where
  pub chat_id : ℤ
  pub thread_id : ℤ

pub data TargetError : Type 0 where
  empty_topic bad_chat bad_topic : TargetError

-- targetKey
unfoldable pub target_key : ChatTarget → Text
target_key t =
    if is_positive t.thread_id
    then print_int t.chat_id ++ (b':' ∷ print_int t.thread_id)
    else print_int t.chat_id

-- what stands before and behind the last colon of `word:rest`, where the words are those between
-- the colons
unfoldable pub last_colon : Text → List Text → Text × Text
last_colon word [] = ([], word)
last_colon word (next ∷ []) = (word, next)
last_colon word (next ∷ more ∷ rest) = last_colon (word ++ (b':' ∷ next)) (more ∷ rest)

abbrev pub is_zero : ℤ → Bool
is_zero (pos zero) = true
is_zero (pos (suc n)) = false
is_zero (negsuc n) = false

-- `ParseInt(chatPart, 10, 64)`, with zero refused
unfoldable pub parse_chat : Text → Result TargetError ℤ
parse_chat chat_part = elim (atoi chat_part) [
  | none ↦ err bad_chat
  | some id ↦ if is_zero id then err bad_chat else ok id
]

-- `Atoi(threadPart)`, with what is not positive refused
unfoldable pub parse_topic : Text → Result TargetError ℤ
parse_topic thread_part = elim (atoi thread_part) [
  | none ↦ err bad_topic
  | some id ↦ if is_positive id then ok id else err bad_topic
]

-- An entry cut at its colons: the chat, and the topic behind the last colon, if there is a colon.
unfoldable pub parse_parts : Text × List Text → Result TargetError ChatTarget
unfolding parse_chat parse_topic last_colon
parse_parts (word, []) = do
  chat_id ← parse_chat word
  ok (record { chat_id = chat_id; thread_id = pos 0 })
parse_parts (word, next ∷ rest) =
    let (chat_part, thread_part) = last_colon word (next ∷ rest) in
    if eqt thread_part [] then err empty_topic else do
      chat_id ← parse_chat chat_part
      thread_id ← parse_topic thread_part
      ok (record { chat_id = chat_id; thread_id = thread_id })

-- The loop of ParseChatTargets over the keys seen and the entries left.
unfoldable pub parse_from : List Text → List Text → Result TargetError (List ChatTarget)
parse_from seen [] = ok []
parse_from seen (raw ∷ entries) =
    let entry = trim_space raw in
    let skipped = parse_from seen entries in
    if eqt entry [] then skipped else do
      t ← parse_parts (cut b':' entry)
      let rest = parse_from (target_key t ∷ seen) entries
      if contains (target_key t) seen then skipped else (do ts ← rest; ok (t ∷ ts))

-- ParseChatTargets
unfoldable pub parse_chat_targets : List Text → Result TargetError (List ChatTarget)
unfolding parse_from
parse_chat_targets entries = parse_from [] entries
