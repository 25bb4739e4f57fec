-- ===== src/Discord/MessageBuilder.antt =====
-- src/eset_incident_ai/infrastructure/discord/message_builder.py: the message of an analysis.
use eset_incident_ai.Prelude.{ℕ, String, List, [], ◌∷◌, take, concat, prefix, join}
use eset_incident_ai.Value.{Fields}
use eset_incident_ai.Domain.Severity.{Severity}
use eset_incident_ai.Domain.Analysis.{IncidentAnalysisResult}
use eset_incident_ai.Discord.Builders.{named, message, percent, or_na}

-- `DiscordMessageBuilder.build`; `decimal` is Python's `str` of an integer.
unfoldable pub build :
    (ℕ → String) → String → Severity → IncidentAnalysisResult → List String → Fields
build decimal incident_title severity analysis evidence_ids =
    message severity incident_title "인시던트 분석이 완료되었습니다."
      (named "요약" (prefix 1024 analysis.root_cause.executive_summary)
        ∷ named "신뢰도" (concat (decimal (percent analysis.overall_confidence)) "%")
        ∷ named "근거" (or_na (join ", " (take 10 evidence_ids)))
        ∷ [])
      "AI 분석 결과이며 보안 담당자의 검토가 필요합니다."
