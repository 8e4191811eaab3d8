-- ===== src/OptionRules/Accepted.antt =====
-- What a configuration without errors satisfies, one group of rules at a time.
use coinjoin_pipeline.Base.{
  ℕ, ◌+◌, ◌≡◌, ◌≤◌, ◌<◌, refl, ◌↔◌, Bool, true, false, [], arith, Option, none, some, ◌==◌,
  string_equality, not, ◌||◌, contains, nat_equality, list_eq,
}
use coinjoin_pipeline.OptionRules.BlockSci.{height_errors, empty_scan, beyond_pin}
use coinjoin_pipeline.OptionRules.Config.{PipelineConfiguration, supplied, number_value}
use coinjoin_pipeline.OptionRules.Tasks.{task_eq, workflow_eq}
use coinjoin_pipeline.Stages.Plans.{BlockSciTask}

-- The scan range that the heights give: nonempty, and within the pinned chain.
abbrev pub IsScanRange : Option ℕ → Option ℕ → Option ℕ → Type 0
IsScanRange pin start end =
    ((s e : ℕ) → start ≡ some s → end ≡ some e → s < e)
    × ((p e : ℕ) → pin ≡ some p → end ≡ some e → e ≤ p + 1)

abbrev pub reads_range : BlockSciTask → Bool
reads_range task = task == BlockSciTask.script || task == BlockSciTask.external

unfoldable pub heights_given : PipelineConfiguration → Bool
heights_given config =
    supplied config "blocksci.pin_height" (number_value config.blocksci.pin_height)
    || supplied config "blocksci.scan_start_height" (number_value config.blocksci.scan_start_height)
    || supplied config "blocksci.scan_end_height" (number_value config.blocksci.scan_end_height)

scan_lem :
    (start end : Option ℕ)
    → (empty_scan start end ≡ false) ↔ ((s e : ℕ) → start ≡ some s → end ≡ some e → s < e)
unfolding empty_scan
scan_lem none end = (λ h s e p q. cc, λ h. refl)
scan_lem (some s) none = (λ h s e p q. cc, λ h. refl)
scan_lem (some s) (some e) = (λ h t f p q. ground arith, λ h. ground (arith, h s e refl refl))

pin_lem :
    (pin end : Option ℕ)
    → (beyond_pin pin end ≡ false) ↔ ((p e : ℕ) → pin ≡ some p → end ≡ some e → e ≤ p + 1)
unfolding beyond_pin
pin_lem none end = (λ h s e p q. cc, λ h. refl)
pin_lem (some s) none = (λ h s e p q. cc, λ h. refl)
pin_lem (some s) (some e) = (λ h t f p q. ground arith, λ h. ground (arith, h s e refl refl))

-- The heights of a configuration pass their rules exactly when they are given only to a task that
-- reads a range, the start lies below the end, and the end is at most one above the pinned height.
pub height_errors-empty :
    (config : PipelineConfiguration)
    → (height_errors config ≡ []) ↔ (
        ((reads_range config.blocksci.task || not (heights_given config)) ≡ true)
        × IsScanRange config.blocksci.pin_height config.blocksci.scan_start_height
            config.blocksci.scan_end_height)
unfolding height_errors contains heights_given
height_errors-empty config = ground (
  arith,
  scan_lem config.blocksci.scan_start_height config.blocksci.scan_end_height,
  pin_lem config.blocksci.pin_height config.blocksci.scan_end_height,
)
