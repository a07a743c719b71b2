-- ===== src/Facts/Suggestion.antt =====
-- app/memory/company_facts/l2_consolidation.py: the text that a todo suggests to its reader.
use startup_ai_manager.Base.{String, Option, none, some, ◌==◌, ◌||◌, if◌then◌else◌, is_blank, strip}
use Prim.Native.String.{◌++◌ as concat}
use startup_ai_manager.Facts.Candidate.{ExtractedFact}

-- `f"{x}"` for a text or `None`
abbrev pub shown : Option String → String
shown none = "None"
shown (some s) = s

unfoldable pub deterministic_suggestion : ExtractedFact → Option String → String → String
deterministic_suggestion c existing reason =
    if reason == "critical_review"
    then concat "「"
        (concat c.metric (concat "」属于重大指标。建议核验原件坐标后，由负责人选择是否采用候选值 " (concat c.value "。")))
    else if reason == "uncertain" || reason == "anomaly"
    then concat "「" (concat c.metric "」候选值需核对原件坐标和语义后再确认，系统不会自动写入。")
    else concat "检测到 " (
        concat c.metric (
          concat " 在期间 " (
            concat c.period (
              concat " 的候选值 " (
                concat c.value
                  (concat " 与当前值 " (concat (shown existing) " 不一致。请核对双方原件坐标后人工决定；系统不作取舍。")))))))

-- The optional provider; `none` where it raised or returned no text.
abbrev pub Provider : Type 0
Provider = ExtractedFact → Option String → String → Option String

unfoldable pub suggest : Option Provider → ExtractedFact → Option String → String → String
suggest none c existing reason = deterministic_suggestion c existing reason
suggest (some provider) c existing reason = elim (provider c existing reason) [
  | none ↦ deterministic_suggestion c existing reason
  | some text ↦ if is_blank text then deterministic_suggestion c existing reason else strip text
]
