-- ===== src/MemoryData/Sources.antt =====
-- constants/user_memory_item.py: the source and the dimension of a memory.
use hojo_memory_engine.Prelude.{
  String, Option, none, some, List, [], ◌∷◌, contains, ◌==◌, string_eq, if◌then◌else◌,
}
use hojo_memory_engine.Text.{strip, starts_with}
use hojo_memory_engine.Result.{Result, ok, err, ◌>>=◌, validation}
use hojo_memory_engine.Services.{Services}

abbrev pub FieldMap : Type 0
FieldMap = List (String × String)

-- `MEMORY_FIELD_TO_DIMENSION`.
abbrev pub memory_field_to_dimension : FieldMap
memory_field_to_dimension =
    ("偏好", "habit")
    ∷ ("厌恶", "dislike")
    ∷ ("习惯", "habit")
    ∷ ("人脉知识", "social")
    ∷ ("背景知识", "background")
    ∷ ("短期目标", "goal")
    ∷ ("程序性知识", "background")
    ∷ ("背景知识-领域知识", "background")
    ∷ ("背景知识-流程知识", "background")
    ∷ ("偏好-关注领域", "habit")
    ∷ ("日程-标题", "habit")
    ∷ ("日程-时间", "habit")
    ∷ ("日程-地点", "habit")
    ∷ ("日程-习惯", "habit")
    ∷ ("日程-描述", "habit")
    ∷ ("日程-完成状态", "habit")
    ∷ ("会议-主题", "background")
    ∷ ("会议-决策", "goal")
    ∷ ("会议-待办", "goal")
    ∷ ("会议-纪要摘要", "background")
    ∷ ("会议-用户承诺", "goal")
    ∷ ("会议-纪要", "background")
    ∷ ("会议-决策事项", "goal")
    ∷ ("会议-待办任务", "goal")
    ∷ ("投资人会议-压力点", "dislike")
    ∷ ("投资人会议-投资人信号", "social")
    ∷ ("投资人会议-投资人画像", "social")
    ∷ ("投资人会议-经验教训", "background")
    ∷ ("投资人会议-下一步", "goal")
    ∷ ("首次引导用户画像", "background")
    ∷ []

abbrev pub kb_memory_fields : List String
kb_memory_fields = "背景知识-领域知识" ∷ "背景知识-流程知识" ∷ "偏好-关注领域" ∷ []

abbrev pub schedule_memory_fields : List String
schedule_memory_fields = "日程-习惯" ∷ "日程-标题" ∷ "日程-时间" ∷ "日程-地点" ∷ "日程-描述" ∷ "日程-完成状态" ∷ []

abbrev investor_memory_fields : List String
investor_memory_fields =
    "投资人会议-压力点" ∷ "投资人会议-投资人信号" ∷ "投资人会议-投资人画像" ∷ "投资人会议-经验教训" ∷ "投资人会议-下一步" ∷ []

abbrev pub meeting_memory_fields : List String
meeting_memory_fields =
    "会议-主题" ∷ "会议-决策" ∷ "会议-待办" ∷ "会议-纪要摘要" ∷ "会议-用户承诺" ∷ "会议-纪要" ∷ "会议-决策事项" ∷ "会议-待办任务"
    ∷ investor_memory_fields

-- `VALID_MEMORY_SOURCES`.
abbrev pub valid_memory_sources : List String
valid_memory_sources = "dialogue" ∷ "knowledge" ∷ "meeting" ∷ "schedule" ∷ []

abbrev pub memory_recently_used_labels : FieldMap
memory_recently_used_labels =
    ("dialogue", "用于对话") ∷ ("knowledge", "用于知识库") ∷ ("schedule", "用于日程") ∷ ("meeting", "用于会议") ∷ []

abbrev pub lookup : String → FieldMap → Option String
lookup k [] = none
lookup k ((j, v) ∷ rest) = if j == k then some v else lookup k rest

-- The service turns the `ValueError` into a `ValidationError`.
unfoldable pub normalize_memory_source : Services → Option String → Result (Option String)
unfolding strip
normalize_memory_source sv none = ok none
normalize_memory_source sv (some source) =
    let normalized = sv.lower (strip source) in
    if normalized == ""
    then ok none
    else if contains normalized valid_memory_sources
    then ok (some normalized)
    else err validation

unfoldable pub infer_memory_source_from_parse_rule : Services → Option String → Option String
unfolding strip starts_with
infer_memory_source_from_parse_rule sv none = none
infer_memory_source_from_parse_rule sv (some rule) =
    let name = sv.lower (strip rule) in
    if strip rule == ""
    then none
    else if starts_with name "schedule_"
    then some "schedule"
    else if starts_with name "meeting_"
    then some "meeting"
    else none

abbrev pub or_inferred : Option String → Option String → Option String
or_inferred none inferred = inferred
or_inferred (some s) inferred = some s

unfoldable pub resolve_write_memory_source :
    Services → Option String → Option String → Result (Option String)
unfolding normalize_memory_source infer_memory_source_from_parse_rule
resolve_write_memory_source sv source rule = normalize_memory_source sv source >>= λ explicit.
    ok (or_inferred explicit (infer_memory_source_from_parse_rule sv rule))

abbrev or_background : Option String → String
or_background none = "background"
or_background (some d) = d

unfoldable pub resolve_dimension : String → String
resolve_dimension name = or_background (lookup name memory_field_to_dimension)

unfoldable pub resolve_default_source : String → String
resolve_default_source name =
    if contains name kb_memory_fields
    then "knowledge"
    else if contains name schedule_memory_fields
    then "schedule"
    else if contains name meeting_memory_fields
    then "meeting"
    else "dialogue"

-- `resolve_memory_source` of a document with this `source` and `memory_field_name`.
unfoldable pub resolve_memory_source : Services → Option String → String → String
unfolding strip resolve_default_source
resolve_memory_source sv none name = resolve_default_source name
resolve_memory_source sv (some stored) name =
    if strip stored == "" then resolve_default_source name else sv.lower (strip stored)
