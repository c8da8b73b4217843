-- ===== src/Calling/Requirements.antt =====
-- app/agent/requirements.py: the parameters that are found in texts, and the check that a call of a
-- tool has those it requires. The search for a regular expression is an argument: the text of its
-- first group in the first match. A dict of parameters holds texts.
pub mod Checked
pub mod Sources
use ai_agent_task_assistant.Common.{
  ℕ, String, Text, codes, text_eq, lower, strip, contains, Bool, true, false, not, ◌&&◌, ◌||◌,
  Option, none, some, List, [], ◌∷◌, ◌++◌, map, Dict, lookup, insert, Value, null, str, truthy,
  fields, field_list, text_of, any, is_some, ◌==◌, if◌then◌else◌,
}
use ai_agent_task_assistant.Tools.Schema.{ToolSchema}

pub record RequirementSlot : Type 0 where
  pub name : String
  pub label : String
  pub patterns : List String
  pub required_for_tools : List String

abbrev pub requirement_slots : List RequirementSlot
requirement_slots =
    record {
      name = "location";
      label = "城市/区域";
      patterns =
          "(?:在|去|到)([^，。；,;]{1,12}?)(?:找|搜索|查|推荐|预定|预订|吃|玩|旅游|旅行|游玩|用餐|餐厅|饭店|景点|酒店|住宿|逛)"
          ∷ "([\\u4e00-\\u9fff]{2,6}(?:市|区|县|镇))"
          ∷ "([\\u4e00-\\u9fff]{2,6}?)(?:有哪些|有什么好|哪里好玩|有什么推荐)" ∷ [];
      required_for_tools = "web_search" ∷ [];
    }
    ∷ record {
      name = "destination";
      label = "目的地";
      patterns =
          "去([^，。；,;]{1,12}?)(?=，|,|。|；|;|出发|玩|旅游|旅行|出差|度假|$)" ∷ "目的地[是为：:：\\s]*([^，。；,;]{1,12})"
          ∷ [];
      required_for_tools = [];
    }
    ∷ record {
      name = "departure_time";
      label = "出发时间";
      patterns = "([^，。；,;]{1,12}?)(?:出发|启程|动身)" ∷ [];
      required_for_tools = [];
    }
    ∷ record {
      name = "return_time";
      label = "返回时间";
      patterns = "([^，。；,;]{1,12}?)(?:回来|返回|回程|返程)" ∷ [];
      required_for_tools = [];
    }
    ∷ record {
      name = "date";
      label = "日期";
      patterns =
          "(今天|明天|后天|昨天|大后天|周[一二三四五六日天]|星期[一二三四五六日天]|下周[一二三四五六日天]|上周末|本周末|周末|\\d{1,2}月\\d{1,2}日|\\d{4}年\\d{1,2}月\\d{1,2}日)"
          ∷ [];
      required_for_tools = [];
    }
    ∷ record {
      name = "time";
      label = "时间";
      patterns = "(早上|上午|中午|下午|晚上|傍晚|凌晨|早晨|\\d{1,2}[:：]\\d{2})" ∷ [];
      required_for_tools = [];
    }
    ∷ record {
      name = "people";
      label = "人数";
      patterns = "([一二两三四五六七八九十\\d]+)\\s*(?:个人|人|位)" ∷ [];
      required_for_tools = [];
    }
    ∷ record {
      name = "budget";
      label = "预算";
      patterns =
          "预算[是为：:：\\s]*([\\d.]+)\\s*元" ∷ "([\\d.]+)\\s*元(?:以内|以下|左右|的预算|预算)" ∷ "([\\d.]+)\\s*块钱"
          ∷ [];
      required_for_tools = [];
    }
    ∷ []

abbrev pub location_dependent_hints : List String
location_dependent_hints =
    "餐厅" ∷ "饭店" ∷ "美食" ∷ "小吃" ∷ "景点" ∷ "旅游" ∷ "旅行" ∷ "游玩" ∷ "酒店" ∷ "民宿" ∷ "住宿" ∷ "天气" ∷ "附近" ∷ "周边"
    ∷ "哪里" ∷ "哪儿" ∷ "在哪" ∷ "在哪儿" ∷ "攻略" ∷ "路线" ∷ "门票" ∷ "咖啡" ∷ "奶茶" ∷ "商场" ∷ "逛街" ∷ "好玩" ∷ "好吃"
    ∷ "推荐" ∷ "打卡" ∷ []

abbrev invalid_values : List String
invalid_values = "unknown" ∷ "null" ∷ "none" ∷ "n/a" ∷ "na" ∷ "待定" ∷ "未知" ∷ "无" ∷ []

-- `_is_valid` of a text
unfoldable pub is_valid_text : Text → Bool
is_valid_text text =
    let stripped = strip text in
    not (text_eq stripped []) && not (any (λ v. text_eq (lower stripped) (codes v)) invalid_values)

-- `_is_valid`
abbrev pub is_valid : (Value → String) → Value → Bool
is_valid render null = false
is_valid render (str s) = is_valid_text (codes s)
is_valid render v = is_valid_text (codes (render v))

-- `key in d`
abbrev pub has_key {ℓ} : {A : Type ℓ} → String → Dict A → Bool
has_key key d = is_some (lookup key d)

module _ (search : String → Text → Option Text) where
  -- the first pattern with a valid value
  unfoldable pub first_value : List String → Text → Option Text
  first_value [] text = none
  first_value (pattern ∷ patterns) text =
      let rest = first_value patterns text in
      elim (search pattern text) [
        | none ↦ rest
        | some group ↦ if is_valid_text (strip group) then some (strip group) else rest
      ]

  unfoldable pub extract_slots : List RequirementSlot → Text → Dict Text
  extract_slots [] text = []
  extract_slots (slot ∷ slots) text =
      let rest = extract_slots slots text in
      elim (first_value slot.patterns text) [ none ↦ rest | some value ↦ (slot.name, value) ∷ rest ]

  unfoldable pub extract_requirements : Text → Dict Text
  unfolding extract_slots
  extract_requirements [] = []
  extract_requirements (c ∷ text) = extract_slots requirement_slots (c ∷ text)

-- one source of `merge_requirements`: a later valid value takes the place of an earlier one
unfoldable pub merge_into : Dict Text → Dict Text → Dict Text
merge_into merged [] = merged
merge_into merged ((key, value) ∷ source) =
    merge_into (if is_valid_text value then insert key (strip value) merged else merged) source

unfoldable pub merge_all : Dict Text → List (Dict Text) → Dict Text
merge_all merged [] = merged
merge_all merged (source ∷ sources) = merge_all (merge_into merged source) sources

unfoldable pub merge_requirements : List (Dict Text) → Dict Text
merge_requirements sources = merge_all [] sources

unfoldable pub is_location_dependent_query : Text → Bool
is_location_dependent_query query =
    any (λ hint. contains (codes hint) query) location_dependent_hints

abbrev listed : Option (List String) → List String
listed none = []
listed (some names) = names

-- `_tool_required_params`
unfoldable pub tool_required_params : Option ToolSchema → List String
tool_required_params none = []
tool_required_params (some schema) = listed schema.input_schema ++ schema.required_params

abbrev pub is_free_text : String → Bool
is_free_text key = (key == "query") || (key == "parameters")

module _ (render : Value → String) where
  -- `str(d.get("query") or "")`
  abbrev query_in : Option Value → String
  query_in none = ""
  query_in (some null) = ""
  query_in (some v) = if truthy v then text_of render "" (some v) else ""

  abbrev nested_query : Option Value → String
  nested_query (some (fields fs)) = query_in (lookup "query" (field_list fs))
  nested_query _ = ""

  -- `_extract_query`
  unfoldable pub extract_query : Dict Value → Text
  extract_query args =
      let query = query_in (lookup "query" args) in
      codes (if query == "" then nested_query (lookup "parameters" args) else query)

  -- the named arguments that count, behind what is there
  unfoldable pub with_arguments : Dict Text → Dict Value → Dict Text
  with_arguments available [] = available
  with_arguments available ((key, value) ∷ args) =
      with_arguments
        (if is_free_text key || not (is_valid render value) || has_key key available
          then available
          else insert key (codes (text_of render "" (some value))) available)
        args

-- the missing ones, with their labels
unfoldable pub label_in : List RequirementSlot → String → String
label_in [] name = name
label_in (slot ∷ slots) name =
    let rest = label_in slots name in if slot.name == name then slot.label else rest

unfoldable pub missing_params : Dict Text → List String → List (String × String)
missing_params available [] = []
missing_params available (param ∷ params) =
    let rest = missing_params available params in
    if is_free_text param || has_key param available
    then rest
    else (param, label_in requirement_slots param) ∷ rest

abbrev pub slot_applies : String → Text → RequirementSlot → Bool
slot_applies tool_name query slot =
    (any (λ t. t == tool_name) slot.required_for_tools
      || any (λ t. t == "*") slot.required_for_tools)
    && not (
        (slot.name == "location")
        && (tool_name == "web_search")
        && not (is_location_dependent_query query))

unfoldable pub missing_slots :
    String → Text → Dict Text → List RequirementSlot → List (String × String)
missing_slots tool_name query available [] = []
missing_slots tool_name query available (slot ∷ slots) =
    let rest = missing_slots tool_name query available slots in
    if slot_applies tool_name query slot && not (has_key slot.name available)
    then (slot.name, slot.label) ∷ rest
    else rest

-- the first of each name
unfoldable pub unique : List String → List (String × String) → List (String × String)
unique seen [] = []
unique seen ((name, label) ∷ rest) =
    if any (λ n. n == name) seen
    then unique seen rest
    else (name, label) ∷ unique (name ∷ seen) rest

pub record RequirementCheckResult : Type 0 where
  pub missing : List String
  pub labels : List String

abbrev pub allowed : RequirementCheckResult → Bool
allowed result = elim result.missing [ [] ↦ true | name ∷ names ↦ false ]

abbrev result_of : List (String × String) → RequirementCheckResult
result_of pairs = record { missing = map (λ p. p.0) pairs; labels = map (λ p. p.1) pairs }

module _ (search : String → Text → Option Text) (render : Value → String) where
  unfoldable pub available_for : Dict Value → Dict Text → Text → Dict Text
  available_for args extracted conversation =
      with_arguments render
        (merge_requirements (
          extracted
          ∷ extract_requirements search (extract_query render args)
          ∷ extract_requirements search conversation
          ∷ []))
        args

  -- the registered tool of that name, if there is one, is an argument
  unfoldable pub check_tool_requirements :
      Option ToolSchema → String → Dict Value → Dict Text → Text → RequirementCheckResult
  check_tool_requirements tool tool_name args extracted conversation =
      let available = available_for args extracted conversation in
      result_of (
        unique [] (
          missing_params available (tool_required_params tool)
          ++ missing_slots tool_name (extract_query render args) available requirement_slots))
