-- ===== src/OptionRules/Submission.antt =====
-- s3_submission.py: the stage graph that the jobs of a configuration form.
use coinjoin_pipeline.Base.{List}
use coinjoin_pipeline.OptionRules.Config.{PipelineConfiguration}
use coinjoin_pipeline.Stages.Defs.{StagePlan}
use coinjoin_pipeline.Stages.Plans.{runs_unified_report, s3_full_run_plan}

unfoldable pub s3_full_run_plan_from_args : PipelineConfiguration → List StagePlan
unfolding runs_unified_report
s3_full_run_plan_from_args args =
    s3_full_run_plan args.stages.mappings args.blocksci.workflow args.stages.analysis
      args.stages.blocksci args.blocksci.task
      (runs_unified_report args.action args.stages.analysis args.stages.blocksci args.blocksci.task)
